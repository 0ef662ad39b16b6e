-- ===== src/Storage/Owner/Uploads.antt =====
-- What the requests do to the upload that storage_owner.rs keeps open.
use binbook.Prelude.{
  ℕ, ◌≡◌, refl, ap, ◌∙◌, Bool, false, ◌==◌, replicate, Option, List, Result, ok, err, arith,
}
use binbook.Storage.Types.{
  StorageName, RequestError, busy, stale, BufferSlot, slot_number, library_index, Request,
  StorageClient, Response, ack, validate_len, scan_batch_bytes, scan_entry_budget,
}
use binbook.Storage.Tokens.{start_scan, require_scan, finish_scan, require_upload}
use binbook.Storage.Owner.{
  OwnerBackend, OwnerError, StorageOwner, Running, Exec, bind_result, ◌>>=◌, return, is_none,
  ensure, lift, call, range, call_filling, with_protocol, get_upload_name,
}
use binbook.Storage.Owner.Execute.{
  read, write_upload, begin_scan, step_scan, end_scan, scratch_range, execute, begins_upload,
  ends_upload,
}

-- The upload that is open, its file and its client.
abbrev pub upload_view :
    {B : Type 0} → StorageOwner B → Option ℕ × (Option StorageName × Option StorageClient)
upload_view o = (o.protocol.upload, (o.upload_name, o.upload_client))

-- The same beside what is looked at in the backend.
abbrev pub View : Type 0 → Type 0
View V = V × (Option ℕ × (Option StorageName × Option StorageClient))

abbrev pub view : {B V : Type 0} → (B → V) → StorageOwner B → View V
view look o = (look o.backend, upload_view o)

abbrev pub Keeps : {B E V A : Type 0} → (B → V) → Exec B E A → Type 0
Keeps {B = B} look m = (s : Running B) → view look (m s).0.owner ≡ view look s.owner

-- A call of the backend that leaves alone what is looked at.
abbrev pub Leaves : {B V A : Type 0} → (B → V) → (B → B × A) → Type 0
Leaves {B = B} look op = (b : B) → look (op b).0 ≡ look b

after_bind :
    {B E V A C : Type 0} (look : B → V) (r : Running B × Result (OwnerError E) A)
    (f : A → Exec B E C) {v : View V}
    → view look r.0.owner ≡ v
    → ((a : A) → Keeps look (f a))
    → view look (bind_result r f).0.owner ≡ v
after_bind look (s, ok a) f h k = k a s ∙ h
after_bind look (s, err e) f h k = h

module _ {B V : Type 0} (look : B → V) {E : Type 0} where
  Keeps-bind :
      {A C : Type 0} (m : Exec B E A) (f : A → Exec B E C)
      → Keeps look m
      → ((a : A) → Keeps look (f a))
      → Keeps look (m >>= f)
  Keeps-bind m f h k s = after_bind look (m s) f (h s) k

  Keeps-call : {A : Type 0} (op : B → B × Result E A) → Leaves look op → Keeps look (call op)
  Keeps-call op h s = ap (λ v. (v, upload_view s.owner)) (h s.owner.backend)

  Keeps-call_filling :
      {A : Type 0} (offset : ℕ) (out : List ℕ) (op : List ℕ → B → B × (List ℕ × Result E A))
      → Leaves look (op out)
      → Keeps look (call_filling offset out op)
  Keeps-call_filling offset out op h s = ap (λ v. (v, upload_view s.owner)) (h s.owner.backend)

  called :
      {A : Type 0} (op : B → B × Result E A) (f : A → Response)
      → Leaves look op
      → Keeps look (call op >>= λ a. return {E = E} (f a))
  called op f h = Keeps-bind (call op) _ (Keeps-call op h) λ a s. refl

module _ {B V : Type 0} (look : B → V) (E : Type 0) where
  Keeps-lift : {A : Type 0} (r : Result RequestError A) → Keeps {E = E} look (lift r)
  Keeps-lift r s = refl

  Keeps-ensure : (b : Bool) (e : RequestError) → Keeps {E = E} look (ensure b e)
  Keeps-ensure b e s = refl

  Keeps-range : (slot : BufferSlot) (offset len : ℕ) → Keeps {E = E} look (range slot offset len)
  unfolding range
  Keeps-range slot offset len s = refl

  Keeps-start_scan : Keeps {E = E} look (with_protocol start_scan)
  unfolding start_scan
  Keeps-start_scan s = ground arith

  Keeps-finish_scan : (token : ℕ) → Keeps {E = E} look (with_protocol (λ p. finish_scan p token))
  unfolding finish_scan require_scan
  Keeps-finish_scan token s = ground arith

-- The calls that neither begin nor end an upload leave alone what is looked at.
pub record Looks {B E V : Type 0} (card : OwnerBackend B E) (look : B → V) : Type 0 where
  pub activate_file : (name : StorageName) (token : ℕ) → Leaves look (card.activate_file name token)
  pub file_size : (name : StorageName) → Leaves look (card.file_size name)
  pub read_at :
      (name : StorageName) (offset : ℕ) (out : List ℕ) → Leaves look (card.read_at name offset out)
  pub upload_write :
      (name : StorageName) (offset : ℕ) (bytes : List ℕ)
      → Leaves look (card.upload_write name offset bytes)
  pub delete : (name : StorageName) → Leaves look (card.delete name)
  pub scan_start : Leaves look card.scan_start
  pub scan_prefetch : (name : StorageName) → Leaves look (card.scan_prefetch name)
  pub scan_step : (budget : ℕ) (out : List ℕ) → Leaves look (card.scan_step budget out)
  pub scan_finish : Leaves look card.scan_finish
  pub scan_cancel : Leaves look card.scan_cancel
  pub scratch_create : Leaves look card.scratch_create
  pub scratch_write : (offset : ℕ) (bytes : List ℕ) → Leaves look (card.scratch_write offset bytes)
  pub scratch_read : (offset : ℕ) (out : List ℕ) → Leaves look (card.scratch_read offset out)
  pub scratch_flush : Leaves look card.scratch_flush
  pub scratch_delete : Leaves look card.scratch_delete

module _ {B E V : Type 0} (card : OwnerBackend B E) (look : B → V) (h : Looks card look) where
  read-Keeps :
      (name : StorageName) (offset at len : ℕ) (slot : BufferSlot)
      → Keeps look (read card name offset at len slot)
  unfolding read
  read-Keeps name offset at len slot =
      Keeps-bind look (lift (validate_len len)) _ (Keeps-lift look E (validate_len len)) λ _.
        Keeps-bind look (range slot at len) _ (Keeps-range look E slot at len) λ out.
          Keeps-bind look (call_filling at out (card.read_at name offset)) _
            (Keeps-call_filling look at out (card.read_at name offset) (h.read_at name offset out))
            λ _ s. refl

  write_upload-Keeps :
      (id offset at len : ℕ) (slot : BufferSlot)
      → Keeps look (write_upload card id offset at len slot)
  unfolding write_upload
  write_upload-Keeps id offset at len slot = λ s.
      (Keeps-bind look (lift (require_upload s.owner.protocol id)) _
          (Keeps-lift look E (require_upload s.owner.protocol id))
          λ _.
            Keeps-bind look (lift (validate_len len)) _ (Keeps-lift look E (validate_len len)) λ _.
              Keeps-bind look (range slot at len) _ (Keeps-range look E slot at len) λ bytes.
                Keeps-bind look get_upload_name _ (λ s'. refl)
                  λ name.
                    called look (card.upload_write name offset bytes) (λ _. Response.written len)
                      (h.upload_write name offset bytes))
        s

  begin_scan-Keeps : Keeps look (begin_scan card)
  unfolding begin_scan
  begin_scan-Keeps = λ s.
      (Keeps-bind look (ensure (is_none s.owner.protocol.scan) busy) _
          (Keeps-ensure look E (is_none s.owner.protocol.scan) busy)
          λ _.
            Keeps-bind look (call card.scan_start) _ (Keeps-call look card.scan_start h.scan_start)
              λ _.
                Keeps-bind look (with_protocol start_scan) _ (Keeps-start_scan look E) λ _ s'. refl)
        s

  step_scan-Keeps : (token : ℕ) (slot : BufferSlot) → Keeps look (step_scan card token slot)
  unfolding step_scan
  step_scan-Keeps token slot = λ s.
      (Keeps-bind look (lift (require_scan s.owner.protocol token)) _
          (Keeps-lift look E (require_scan s.owner.protocol token))
          λ _.
            Keeps-bind look (range slot 0 scan_batch_bytes) _
              (Keeps-range look E slot 0 scan_batch_bytes)
              λ _.
                Keeps-bind look
                  (call_filling 0 (replicate scan_batch_bytes 0) (card.scan_step scan_entry_budget))
                  _
                  (Keeps-call_filling look 0 (replicate scan_batch_bytes 0)
                    (card.scan_step scan_entry_budget)
                    (h.scan_step scan_entry_budget (replicate scan_batch_bytes 0)))
                  λ _ s'. refl)
        s

  end_scan-Keeps :
      (op : B → B × Result E (Unit {0})) (token : ℕ)
      → Leaves look op
      → Keeps look (end_scan card op token)
  unfolding end_scan
  end_scan-Keeps op token leaves = λ s.
      (Keeps-bind look (lift (require_scan s.owner.protocol token)) _
          (Keeps-lift look E (require_scan s.owner.protocol token))
          λ _. Keeps-bind look (call op) _ (Keeps-call look op leaves) λ _.
            Keeps-bind look (with_protocol (λ p. finish_scan p token)) _
              (Keeps-finish_scan look E token) λ _ s'. refl)
        s

  scratch_range-Keeps :
      (at len : ℕ) (slot : BufferSlot) → Keeps look (scratch_range card at len slot)
  unfolding scratch_range
  scratch_range-Keeps at len slot =
      Keeps-bind look (ensure (slot_number slot == slot_number library_index) stale) _
        (Keeps-ensure look E (slot_number slot == slot_number library_index) stale)
        λ _.
          Keeps-bind look (lift (validate_len len)) _ (Keeps-lift look E (validate_len len))
            λ _. Keeps-range look E slot at len

  -- Only the requests that begin or end an upload touch the one that is open.
  pub execute-Keeps :
      (r : Request) → begins_upload r ≡ false → ends_upload r ≡ false → Keeps look (execute card r)
  unfolding execute
  execute-Keeps (Request.activate_file name token) b e =
      called look (card.activate_file name token) Response.size_of (h.activate_file name token)
  execute-Keeps (Request.file_size name) b e =
      called look (card.file_size name) Response.size_of (h.file_size name)
  execute-Keeps (Request.read name offset at len slot) b e = read-Keeps name offset at len slot
  execute-Keeps (Request.upload_begin _ _ _ _) b e = absurd (cc)
  execute-Keeps (Request.upload_write id offset at len slot _) b e =
      write_upload-Keeps id offset at len slot
  execute-Keeps (Request.upload_commit _ _) b e = absurd (cc)
  execute-Keeps (Request.upload_abort _) b e = absurd (cc)
  execute-Keeps (Request.delete name) b e =
      called look (card.delete name) (λ _. ack) (h.delete name)
  execute-Keeps Request.scan_start b e = begin_scan-Keeps
  execute-Keeps (Request.scan_prefetch token name) b e = λ s.
      (Keeps-bind look (lift (require_scan s.owner.protocol token)) _
          (Keeps-lift look E (require_scan s.owner.protocol token))
          λ _. called look (card.scan_prefetch name) (λ _. ack) (h.scan_prefetch name))
        s
  execute-Keeps (Request.scan_step token slot) b e = step_scan-Keeps token slot
  execute-Keeps (Request.scan_finish token) b e =
      end_scan-Keeps card.scan_finish token h.scan_finish
  execute-Keeps (Request.scan_cancel token) b e =
      end_scan-Keeps card.scan_cancel token h.scan_cancel
  execute-Keeps Request.scratch_create b e =
      called look card.scratch_create (λ _. ack) h.scratch_create
  execute-Keeps (Request.scratch_write offset at len slot) b e =
      Keeps-bind look (scratch_range card at len slot) _ (scratch_range-Keeps at len slot) λ bytes.
        called look (card.scratch_write offset bytes) (λ _. Response.written len)
          (h.scratch_write offset bytes)
  execute-Keeps (Request.scratch_read offset at len slot) b e =
      Keeps-bind look (scratch_range card at len slot) _ (scratch_range-Keeps at len slot) λ out.
        Keeps-bind look (call_filling at out (card.scratch_read offset)) _
          (Keeps-call_filling look at out (card.scratch_read offset) (h.scratch_read offset out))
          λ _ s. refl
  execute-Keeps Request.scratch_flush b e =
      called look card.scratch_flush (λ _. ack) h.scratch_flush
  execute-Keeps Request.scratch_delete b e =
      called look card.scratch_delete (λ _. ack) h.scratch_delete

-- Looking at nothing of the backend.
abbrev nothing : {B : Type 0} → B → Unit {0}
nothing b = tt

nothing_looked : {B E : Type 0} (card : OwnerBackend B E) → Looks card nothing
nothing_looked card = record {
  activate_file = λ _ _ _. refl;
  file_size = λ _ _. refl;
  read_at = λ _ _ _ _. refl;
  upload_write = λ _ _ _ _. refl;
  delete = λ _ _. refl;
  scan_start = λ _. refl;
  scan_prefetch = λ _ _. refl;
  scan_step = λ _ _ _. refl;
  scan_finish = λ _. refl;
  scan_cancel = λ _. refl;
  scratch_create = λ _. refl;
  scratch_write = λ _ _ _. refl;
  scratch_read = λ _ _ _. refl;
  scratch_flush = λ _. refl;
  scratch_delete = λ _. refl;
}

pub upload_view-execute :
    {B E : Type 0} (card : OwnerBackend B E) (r : Request) (s : Running B)
    → begins_upload r ≡ false
    → ends_upload r ≡ false
    → upload_view (execute card r s).0.owner ≡ upload_view s.owner
upload_view-execute card r s b c =
    ap (λ v. v.1) (execute-Keeps card nothing (nothing_looked card) r b c s)
