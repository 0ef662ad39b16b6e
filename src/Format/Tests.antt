-- ===== src/Format/Tests.antt =====
-- Records of a small book, and the theorems about the readers of the format at them.
use binbook.Prelude.{
  ℕ, if◌then◌else◌, ◌==◌, ◌≡◌, refl, none, some, List, [], ◌∷◌, ◌++◌, All, replicate,
}
use binbook.Format.Wire.{to_le_bytes}
use binbook.Format.Types.{read_le, overlay_lsb, fast_base, rle_pack_bits, gray2_packed}
use binbook.Format.Chunk.{PageChunk}
use binbook.Format.Transition.{PageTransition}
use binbook.Format.Navigation.{ChapterEntry}
use binbook.Format.Header.{Header}
use binbook.Format.Page.{PageInfo, PlaneDescriptor}
use binbook.Format.Sections.{
  Section, required, required_slot, parse_entry, enter, parse_entries, check_required,
  validate_record_section, get_section,
}
use binbook.Format.Sections.Accepted.{InFile, parse-InFile, parse-get_section}
use binbook.Format.Sections as Sections

abbrev zeros : ℕ → List ℕ
zeros n = replicate n 0

-- `to_le_bytes` of four and two bytes
abbrev word : ℕ → List ℕ
word = to_le_bytes 4

abbrev half : ℕ → List ℕ
half = to_le_bytes 2

abbrev long : ℕ → List ℕ
long = to_le_bytes 8

abbrev chunk_bytes : List ℕ
chunk_bytes =
    word 2 ++ (1 ∷ 3 ∷ half 480 ++ (half 160 ++ (half 0 ++ (word 40 ++ (word 60 ++ word 960)))))

abbrev chunk : PageChunk
chunk = record {
  page_number = 2;
  plane = overlay_lsb;
  chunk_index = 3;
  row_start = 480;
  row_count = 160;
  offset = 40;
  compressed_length = 60;
  uncompressed_length = 960;
}

abbrev transition_bytes : List ℕ
transition_bytes = word 1 ++ (word 2 ++ (word 6 ++ (half 1 ++ (half 2 ++ zeros 8))))

abbrev transition : PageTransition
transition = record {
  from = 1;
  to = 2;
  changed_chunk_mask = 6;
  first_changed_chunk = 1;
  changed_chunk_count = 2;
  flags = 0;
}

abbrev chapter_bytes : List ℕ
chapter_bytes =
    word 4 ++ (word 6 ++ (word 10 ++ (word 5 ++ (word 2 ++ (half 1 ++ (half 3 ++ zeros 8))))))

abbrev chapter : ChapterEntry
chapter = record {
  number = 4;
  nav = 6;
  title = record { offset = 10; length = 5 };
  page = 2;
  level = 1;
  nav_type = 3;
}

abbrev header_bytes : List ℕ
header_bytes =
    66 ∷ 73 ∷ 78 ∷ 66 ∷ 79 ∷ 79 ∷ 75 ∷ 0 ∷ zeros 4
    ++ (half 256
        ++ (half 0
            ++ (long 2000
                ++ (long 256
                    ++ (word 760
                        ++ (half 40
                            ++ (half 19
                                ++ (half 128
                                    ++ (half 48 ++ (long 1016 ++ (long 100 ++ zeros 196)))))))))))

abbrev header : Header
header = record {
  file_length = 2000;
  section_table_offset = 256;
  section_table_length = 760;
  section_count = 19;
  page_data_offset = 1016;
  page_data_length = 100;
}

abbrev page_bytes : List ℕ
page_bytes =
    word 1
    ++ (half 0
        ++ (half 2
            ++ (half 1
                ++ (half 0
                    ++ (word 0
                        ++ (word 77
                            ++ (half 480
                                ++ (half 800
                                    ++ (half 0
                                        ++ (half 0
                                            ++ (word 0
                                                ++ (word 0
                                                    ++ (word 10
                                                        ++ (word 20
                                                            ++ (4 ∷ zeros 7
                                                            ++ (zeros 8
                                                            ++ (word 30
                                                            ++ (zeros 12
                                                            ++ (word 50
                                                            ++ zeros 48)))))))))))))))))))

abbrev plane : PlaneDescriptor
plane = record { slot = fast_base; compression = rle_pack_bits; offset = 30; length = 50 }

abbrev page : PageInfo
page = record {
  page_number = 1;
  page_kind = 0;
  pixel_format = gray2_packed;
  compression_method = rle_pack_bits;
  update_hint = 0;
  page_flags = 0;
  page_crc32 = 77;
  stored_width = 480;
  stored_height = 800;
  placement_x = 0;
  placement_y = 0;
  progress_start_ppm = 10;
  progress_end_ppm = 20;
  planes = record { bitmap = 4; slots = none ∷ none ∷ some plane ∷ none ∷ [] };
}

-- A section of the directory with the size of its records, which has one record if it has any size.
abbrev section : ℕ → ℕ → ℕ → ℕ → Section
section id start size count = record {
  id = id;
  flags = 0;
  offset = start;
  length = if id == 50 then 100 else 200;
  entry_size = size;
  record_count = count;
  crc32 = 5;
}

abbrev entry : Section → List ℕ
entry s =
    half s.id
    ++ (half s.flags
        ++ (long s.offset
            ++ (long s.length
                ++ (word s.entry_size ++ (word s.record_count ++ (word s.crc32 ++ zeros 8))))))

abbrev sections : List Section
sections =
    section 1 1200 0 0
    ∷ section 10 1200 0 0
    ∷ section 11 1200 0 0
    ∷ section 12 1200 0 0
    ∷ section 20 1200 0 0
    ∷ section 21 1200 0 0
    ∷ section 22 1200 0 0
    ∷ section 30 1200 0 0
    ∷ section 31 1200 0 0
    ∷ section 32 1200 0 0
    ∷ section 33 1200 0 0
    ∷ section 34 1200 0 0
    ∷ section 35 1200 80 0
    ∷ section 40 1200 128 1
    ∷ section 41 1200 48 0
    ∷ section 43 1200 32 0
    ∷ section 44 1200 24 0
    ∷ section 45 1200 24 0
    ∷ section 50 1016 0 0
    ∷ []

abbrev table : List Section → List ℕ
table [] = []
table (s ∷ ss) = entry s ++ table ss

parse-InFile_example : All (InFile 2000) sections
unfolding Sections.parse parse_entries parse_entry enter check_required validate_record_section
    required_slot read_le
parse-InFile_example = parse-InFile (table sections) header refl

parse-get_section_example : All (λ id. (get_section sections id).id ≡ id) required
unfolding Sections.parse parse_entries parse_entry enter check_required validate_record_section
    required_slot read_le
parse-get_section_example = parse-get_section (table sections) header refl
