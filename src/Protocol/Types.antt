-- ===== src/Protocol/Types.antt =====
-- firmware/crates/binbook-diagnostic-protocol/src/types.rs: errors, constants and codes of the protocol.
use binbook.Prelude.{ℕ, ◌≡◌, refl, ◌==◌, if◌then◌else◌, Option, none, some, List, [], ◌∷◌}

pub data ProtocolError : Type 0 where
  output_too_small bad_magic bad_crc frame_too_large bad_cobs unknown_opcode : ProtocolError
  payload_too_large bad_status bad_payload_length bad_version invalid_value : ProtocolError

abbrev pub frame_delimiter : ℕ
frame_delimiter = 0

abbrev pub protocol_version : ℕ
protocol_version = 2

abbrev pub max_frame_bytes : ℕ
max_frame_bytes = 4126

abbrev pub max_payload_bytes : ℕ
max_payload_bytes = 4096

-- `BB`
abbrev pub magic : List ℕ
magic = 66 ∷ 66 ∷ []

pub record RawFrameHeader : Type 0 where
  pub kind : ℕ
  pub opcode : ℕ
  pub status : ℕ
  pub sequence : ℕ
  pub payload_len : ℕ

pub data FrameKind : Type 0 where
  request response event : FrameKind

pub data Opcode : Type 0 where
  op_hello op_key op_page op_status op_log_get op_log_clear op_crash_get : Opcode
  op_crash_clear op_display_probe op_store_list op_store_upload_begin : Opcode
  op_store_upload_write op_store_upload_commit op_store_abort op_store_delete : Opcode
  op_store_read op_refresh_mode op_store_transfer_limits op_store_transfer_trace : Opcode
  op_store_bulk_open op_store_bulk_data op_store_bulk_credit op_store_bulk_status : Opcode
  op_store_bulk_finish op_store_bulk_abort op_store_sd_write_trace : Opcode

pub data Status : Type 0 where
  status_ok status_error bad_request not_found internal_error unsupported : Status

pub record FrameHeader : Type 0 where
  pub kind : FrameKind
  pub opcode : Opcode
  pub status : Status
  pub sequence : ℕ
  pub payload_len : ℕ

-- `as u8` and `from_u8` of each enumeration.
unfoldable pub kind_code : FrameKind → ℕ
kind_code request = 1
kind_code response = 2
kind_code event = 3

unfoldable pub kind_from_u8 : ℕ → Option FrameKind
kind_from_u8 value =
    if value == 1
    then some request
    else if value == 2
    then some response
    else if value == 3
    then some event
    else none

unfoldable pub opcode_code : Opcode → ℕ
opcode_code op_hello = 0x01
opcode_code op_key = 0x02
opcode_code op_page = 0x03
opcode_code op_status = 0x04
opcode_code op_log_get = 0x05
opcode_code op_log_clear = 0x06
opcode_code op_crash_get = 0x07
opcode_code op_crash_clear = 0x08
opcode_code op_display_probe = 0x09
opcode_code op_store_list = 0x0a
opcode_code op_store_upload_begin = 0x0b
opcode_code op_store_upload_write = 0x0c
opcode_code op_store_upload_commit = 0x0d
opcode_code op_store_abort = 0x0e
opcode_code op_store_delete = 0x0f
opcode_code op_store_read = 0x10
opcode_code op_refresh_mode = 0x11
opcode_code op_store_transfer_limits = 0x12
opcode_code op_store_transfer_trace = 0x13
opcode_code op_store_bulk_open = 0x14
opcode_code op_store_bulk_data = 0x15
opcode_code op_store_bulk_credit = 0x16
opcode_code op_store_bulk_status = 0x17
opcode_code op_store_bulk_finish = 0x18
opcode_code op_store_bulk_abort = 0x19
opcode_code op_store_sd_write_trace = 0x1a

unfoldable pub opcode_from_u8 : ℕ → Option Opcode
opcode_from_u8 value =
    if value == 0x01
    then some op_hello
    else if value == 0x02
    then some op_key
    else if value == 0x03
    then some op_page
    else if value == 0x04
    then some op_status
    else if value == 0x05
    then some op_log_get
    else if value == 0x06
    then some op_log_clear
    else if value == 0x07
    then some op_crash_get
    else if value == 0x08
    then some op_crash_clear
    else if value == 0x09
    then some op_display_probe
    else if value == 0x0a
    then some op_store_list
    else if value == 0x0b
    then some op_store_upload_begin
    else if value == 0x0c
    then some op_store_upload_write
    else if value == 0x0d
    then some op_store_upload_commit
    else if value == 0x0e
    then some op_store_abort
    else if value == 0x0f
    then some op_store_delete
    else if value == 0x10
    then some op_store_read
    else if value == 0x11
    then some op_refresh_mode
    else if value == 0x12
    then some op_store_transfer_limits
    else if value == 0x13
    then some op_store_transfer_trace
    else if value == 0x14
    then some op_store_bulk_open
    else if value == 0x15
    then some op_store_bulk_data
    else if value == 0x16
    then some op_store_bulk_credit
    else if value == 0x17
    then some op_store_bulk_status
    else if value == 0x18
    then some op_store_bulk_finish
    else if value == 0x19
    then some op_store_bulk_abort
    else if value == 0x1a
    then some op_store_sd_write_trace
    else none

unfoldable pub status_code : Status → ℕ
status_code status_ok = 0
status_code status_error = 1
status_code bad_request = 2
status_code not_found = 3
status_code internal_error = 4
status_code unsupported = 5

unfoldable pub status_from_u8 : ℕ → Option Status
status_from_u8 value =
    if value == 0
    then some status_ok
    else if value == 1
    then some status_error
    else if value == 2
    then some bad_request
    else if value == 3
    then some not_found
    else if value == 4
    then some internal_error
    else if value == 5
    then some unsupported
    else none

-- Each code is read as what it stands for.
pub kind_from_u8-code : (k : FrameKind) → kind_from_u8 (kind_code k) ≡ some k
unfolding kind_from_u8 kind_code
kind_from_u8-code request = refl
kind_from_u8-code response = refl
kind_from_u8-code event = refl

pub opcode_from_u8-code : (o : Opcode) → opcode_from_u8 (opcode_code o) ≡ some o
unfolding opcode_from_u8 opcode_code
opcode_from_u8-code op_hello = refl
opcode_from_u8-code op_key = refl
opcode_from_u8-code op_page = refl
opcode_from_u8-code op_status = refl
opcode_from_u8-code op_log_get = refl
opcode_from_u8-code op_log_clear = refl
opcode_from_u8-code op_crash_get = refl
opcode_from_u8-code op_crash_clear = refl
opcode_from_u8-code op_display_probe = refl
opcode_from_u8-code op_store_list = refl
opcode_from_u8-code op_store_upload_begin = refl
opcode_from_u8-code op_store_upload_write = refl
opcode_from_u8-code op_store_upload_commit = refl
opcode_from_u8-code op_store_abort = refl
opcode_from_u8-code op_store_delete = refl
opcode_from_u8-code op_store_read = refl
opcode_from_u8-code op_refresh_mode = refl
opcode_from_u8-code op_store_transfer_limits = refl
opcode_from_u8-code op_store_transfer_trace = refl
opcode_from_u8-code op_store_bulk_open = refl
opcode_from_u8-code op_store_bulk_data = refl
opcode_from_u8-code op_store_bulk_credit = refl
opcode_from_u8-code op_store_bulk_status = refl
opcode_from_u8-code op_store_bulk_finish = refl
opcode_from_u8-code op_store_bulk_abort = refl
opcode_from_u8-code op_store_sd_write_trace = refl

pub status_from_u8-code : (s : Status) → status_from_u8 (status_code s) ≡ some s
unfolding status_from_u8 status_code
status_from_u8-code status_ok = refl
status_from_u8-code status_error = refl
status_from_u8-code bad_request = refl
status_from_u8-code not_found = refl
status_from_u8-code internal_error = refl
status_from_u8-code unsupported = refl
