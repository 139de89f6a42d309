-- ===== src/Objects.antt =====
-- frontend/src/components/objects/ObjectStore.tsx: the objects of one bucket. A binary text is the
-- list of its character codes; `btoa`, `atob` and `TextDecoder` are parameters. The loop over a file
-- goes by fuel, one round for each byte, which is enough since a round takes 32768 bytes. A handler
-- that calls the API is in two halves, up to the call and from its answer; what the second half knows
-- from the first is an argument of its event. Fetching and the JSX are left out.
pub mod Base64
pub mod Buckets
pub mod Errors
pub mod Late
mod Tests
use nats_ui.Prelude.{
  ℕ, zero, suc, ◌+◌, ◌*◌, ◌%◌, String, str_eq, Bool, true, false, not, ◌&&◌, ◌||◌, Option, none,
  some, List, Dict, [], ◌∷◌, ◌++◌, map, length, take, drop, filter, find?, ltb, ◌==◌, if◌then◌else◌,
}
use nats_ui.Publisher.Placeholders.{trim}
use nats_ui.Tail.{includes}

-- The bytes that one round takes.
abbrev pub chunk_size : ℕ
chunk_size = 32768

-- The rounds of the loop from byte `i`, where `bin` is what is read so far.
pub bin_from : ℕ → ℕ → List ℕ → List ℕ → List ℕ
bin_from zero i bytes bin = bin
bin_from (suc f) i bytes bin =
    let rest = bin_from f (i + chunk_size) bytes (bin ++ take chunk_size (drop i bytes)) in
    if ltb i (length bytes) then rest else bin

pub bytes_to_b64 : (List ℕ → String) → List ℕ → String
bytes_to_b64 btoa bytes = btoa (bin_from (length bytes) 0 bytes [])

-- `atob` throws where a text is not base 64; an element of a `Uint8Array` is a code modulo 256.
pub b64_to_bytes : (String → Option (List ℕ)) → String → Option (List ℕ)
b64_to_bytes atob b64 = elim (atob b64) [ none ↦ none | some bin ↦ some (map (λ c. c % 256) bin) ]

abbrev pub is_control : ℕ → Bool
is_control c = ltb c 9 || (ltb 13 c && ltb c 32) || c == 65533

pub count_control : List ℕ → ℕ
count_control [] = 0
count_control (c ∷ cs) = let rest = count_control cs in if is_control c then suc rest else rest

pub record Decoded : Type 0 where
  pub text : List ℕ
  pub binary : Bool

-- `ctrl > text.length * 0.05 + 1`, times 20.
pub decode_text : (String → Option (List ℕ)) → (List ℕ → List ℕ) → String → Decoded
decode_text atob decode b64 = elim (b64_to_bytes atob b64) [
  | none ↦ record { text = []; binary = true }
  | some bytes ↦
      let text = decode bytes in
      record { text = text; binary = ltb (length text + 20) (20 * count_control text) }
]

pub record ObjectEntry : Type 0 where
  pub name : String
  pub description : Option String
  pub bucket : String
  pub size : ℕ
  pub chunks : ℕ
  pub mod_time : String
  pub digest : Option String
  pub headers : Option (Dict String)

-- A missing `tooLarge` is false.
pub record ObjectData : Type 0 where
  pub name : String
  pub size : ℕ
  pub base64 : String
  pub too_large : Bool

pub record ObjectBucketInfo : Type 0 where
  pub bucket : String
  pub description : Option String
  pub size : ℕ
  pub ttl : ℕ
  pub replicas : ℕ

-- The state of the view, with the buckets that are known.
pub record Objects : Type 0 where
  pub buckets : Option (List ObjectBucketInfo)
  pub bucket : String
  pub selected : Option String
  pub creating_text : Bool
  pub new_name : String
  pub text_body : String
  pub filter_text : String
  pub show_new_bucket : Bool
  pub err : String
  pub busy : Bool

pub initial_objects : Objects
initial_objects = record {
  buckets = none;
  bucket = "";
  selected = none;
  creating_text = false;
  new_name = "";
  text_body = "";
  filter_text = "";
  show_new_bucket = false;
  err = "";
  busy = false;
}

abbrev pub first_bucket : Option (List ObjectBucketInfo) → Option String
first_bucket none = none
first_bucket (some []) = none
first_bucket (some (b ∷ bs)) = some b.bucket

-- The effect: the first bucket is chosen once the buckets are known.
pub auto_select : Objects → Objects
auto_select s = elim (first_bucket s.buckets) [
  | none ↦ s
  | some b ↦ if str_eq s.bucket "" then record s { bucket = b } else s
]

-- The calls that change something, with the bucket that they are for.
pub data Request : Type 0 where
  put_file put_text : (bucket name content : String) → Request
  delete_object : (bucket name : String) → Request
  delete_bucket : (bucket : String) → Request

abbrev pub begin : Objects → Objects
begin s = record s { busy = true; err = "" }

pub upload : (List ℕ → String) → String → List ℕ → Objects → Objects × Option Request
upload btoa name bytes s = (begin s, some (put_file s.bucket name (bytes_to_b64 btoa bytes)))

pub save_text : Objects → Objects × Option Request
save_text s =
    let name = trim s.new_name in
    if str_eq name ""
    then (record s { err = "Object name is required" }, none)
    else (begin s, some (put_text s.bucket name s.text_body))

pub del_obj : String → Objects → Objects × Option Request
del_obj name s = (begin s, some (delete_object s.bucket name))

-- `confirmed` is what `window.confirm` answers.
pub del_bucket : Bool → Objects → Objects × Option Request
del_bucket confirmed s = (s, if confirmed then some (delete_bucket s.bucket) else none)

-- What the user does, and the answers. `delete_done` has the selection at the time of the call,
-- which the handler compares with the name.
pub data Event : Type 0 where
  choose_bucket choose_object type_name type_body type_filter : String → Event
  start_text close_text open_new_bucket close_new_bucket bucket_deleted : Event
  press_upload : (btoa : List ℕ → String) (name : String) (bytes : List ℕ) → Event
  press_save : Event
  press_delete : String → Event
  upload_done upload_failed save_done save_failed delete_failed : String → Event
  delete_done : Option String → String → Event
  bucket_delete_failed bucket_created : String → Event
  buckets_answered : List ObjectBucketInfo → Event

abbrev pub is_name : Option String → String → Bool
is_name none name = false
is_name (some k) name = str_eq k name

pub handle : Event → Objects → Objects
handle (choose_bucket b) s = record s { bucket = b; selected = none; creating_text = false }
handle (choose_object name) s = record s { creating_text = false; selected = some name }
handle (type_name v) s = record s { new_name = v }
handle (type_body v) s = record s { text_body = v }
handle (type_filter v) s = record s { filter_text = v }
handle start_text s = record s {
  creating_text = true;
  selected = none;
  new_name = "";
  text_body = "";
  err = "";
}
handle close_text s = record s { creating_text = false }
handle open_new_bucket s = record s { show_new_bucket = true }
handle close_new_bucket s = record s { show_new_bucket = false }
handle bucket_deleted s = record s { bucket = ""; selected = none }
handle (press_upload btoa name bytes) s = (upload btoa name bytes s).0
handle press_save s = (save_text s).0
handle (press_delete name) s = (del_obj name s).0
handle (upload_done name) s = record s { selected = some name; creating_text = false; busy = false }
handle (upload_failed message) s = record s { err = message; busy = false }
handle (save_done name) s = record s { creating_text = false; selected = some name; busy = false }
handle (save_failed message) s = record s { err = message; busy = false }
handle (delete_failed message) s = record s { err = message; busy = false }
handle (delete_done before name) s =
    if is_name before name
    then record s { selected = none; busy = false }
    else record s { busy = false }
handle (bucket_delete_failed message) s = record s { err = message }
handle (bucket_created b) s = record s { bucket = b; show_new_bucket = false }
handle (buckets_answered bs) s = record s { buckets = some bs }

-- A handler and then the effect, which changes nothing where neither the buckets nor the chosen one
-- has changed.
pub step : Event → Objects → Objects
step e s = auto_select (handle e s)

pub run : List Event → Objects → Objects
run [] s = s
run (e ∷ es) s = run es (step e s)

-- The object that is open: `!selected` holds of an empty name too.
pub open_object : Objects → Option String
open_object s =
    if s.creating_text
    then none
    else elim s.selected [ none ↦ none | some k ↦ if str_eq k "" then none else some k ]

-- The error that is shown: it stands in the view of an open object.
pub shown_error : Objects → Option String
shown_error s = elim (open_object s) [
  | none ↦ none
  | some k ↦ if str_eq s.err "" then none else some s.err
]

-- The file that `download` saves, with its name; the button needs data that are not too large.
pub download : (String → Option (List ℕ)) → Option ObjectData → Objects → Option (List ℕ × String)
download atob none s = none
download atob (some d) s = elim (open_object s) [
  | none ↦ none
  | some k ↦
      if d.too_large
      then none
      else elim (b64_to_bytes atob d.base64) [ none ↦ none | some bytes ↦ some (bytes, k) ]
]

pub filtered : (String → String) → Option (List ObjectEntry) → Objects → List ObjectEntry
filtered lower none s = []
filtered lower (some es) s =
    let f = lower (trim s.filter_text) in
    if str_eq f "" then es else filter (λ e. includes f (lower e.name)) es
