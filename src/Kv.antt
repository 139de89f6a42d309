-- ===== src/Kv.antt =====
-- frontend/src/components/kv/KVManager.tsx: the browser of the key-value buckets of one cluster. The
-- answers of the queries are a cache of the buckets and the keys of each bucket. The query client shares
-- structure: an element of a new answer is the same object as the element at its place in the answer
-- before exactly where the two are equal; so an effect sees the same entry exactly where the bucket,
-- the place and all fields are the same. `lower` is `toLowerCase`. The effects run after each handler, in the
-- order in which they stand. Fetching and the JSX are left out.
pub mod Buckets
pub mod Laws
pub mod Effects
pub mod Opening
pub mod Editing
mod Tests
use nats_ui.Prelude.{
  ℕ, suc, String, str_eq, Bool, true, false, not, ◌&&◌, ◌||◌, Option, none, some, or_else, is_some,
  List, [], ◌∷◌, find?, filter, Dict, lookup, insert, ◌==◌, if◌then◌else◌,
}
use nats_ui.Publisher.Placeholders.{trim}
use nats_ui.Tail.{includes}

pub data Operation : Type 0 where
  put delete purge : Operation

pub record KvEntry : Type 0 where
  pub bucket : String
  pub key : String
  pub value : String
  pub revision : ℕ
  pub created : String
  pub operation : Operation
  pub size : ℕ

pub record KvBucketInfo : Type 0 where
  pub bucket : String
  pub values : ℕ
  pub history : ℕ
  pub ttl : ℕ
  pub bytes : ℕ
  pub replicas : ℕ

-- What the queries have answered.
pub record Cache : Type 0 where
  pub buckets : Option (List KvBucketInfo)
  pub keys : Dict (List KvEntry)

pub record Manager : Type 0 where
  pub bucket : String
  pub selected_key : Option String
  pub creating_key : Bool
  pub new_key_name : String
  pub editor : String
  pub filter : String
  pub show_new_bucket : Bool
  pub err : String

pub initial_manager : Manager
initial_manager = record {
  bucket = "";
  selected_key = none;
  creating_key = false;
  new_key_name = "";
  editor = "";
  filter = "";
  show_new_bucket = false;
  err = "";
}

-- The keys of the chosen bucket; nothing is asked for without one.
pub keys_of : Cache → Manager → Option (List KvEntry)
keys_of c s = if str_eq s.bucket "" then none else lookup s.bucket c.keys

abbrev pub is_key : Option String → KvEntry → Bool
is_key none e = false
is_key (some k) e = str_eq e.key k

pub selected_entry : Cache → Manager → Option KvEntry
selected_entry c s = elim (keys_of c s) [ none ↦ none | some es ↦ find? (is_key s.selected_key) es ]

pub index_of : Option String → List KvEntry → ℕ
index_of o [] = 0
index_of o (e ∷ es) = let rest = index_of o es in if is_key o e then 0 else suc rest

-- The place of the open entry in the list of its bucket.
pub selected_index : Cache → Manager → ℕ
unfolding index_of
selected_index c s = elim (keys_of c s) [ none ↦ 0 | some es ↦ index_of s.selected_key es ]

abbrev pub first_bucket : Option (List KvBucketInfo) → Option String
first_bucket none = none
first_bucket (some []) = none
first_bucket (some (b ∷ bs)) = some b.bucket

-- The first effect: a bucket is chosen once the buckets are known.
pub auto_select : Cache → Manager → Manager
auto_select c s = elim (first_bucket c.buckets) [
  | none ↦ s
  | some b ↦ if str_eq s.bucket "" then record s { bucket = b } else s
]

-- The second effect, where the entry or the flag has changed.
pub load_editor : Cache → Manager → Manager
load_editor c s = if s.creating_key then s else (record s {
  editor = elim (selected_entry c s) [ none ↦ "" | some e ↦ e.value ];
  err = "";
})

abbrev pub same_operation : Operation → Operation → Bool
same_operation put put = true
same_operation delete delete = true
same_operation purge purge = true
same_operation _ _ = false

abbrev pub same_entry : Option KvEntry → Option KvEntry → Bool
same_entry none none = true
same_entry (some a) (some b) =
    str_eq a.key b.key
    && str_eq a.value b.value
    && a.revision == b.revision
    && str_eq a.bucket b.bucket
    && str_eq a.created b.created
    && same_operation a.operation b.operation
    && a.size == b.size
same_entry _ _ = false

abbrev same_flag : Bool → Bool → Bool
same_flag true b = b
same_flag false b = not b

-- The open entry as an object.
pub record Selected : Type 0 where
  pub bucket : String
  pub index : ℕ
  pub entry : Option KvEntry

abbrev pub same_place : Selected → Selected → Bool
same_place a b = str_eq a.bucket b.bucket && a.index == b.index

-- The same object; `null` is always the same.
abbrev pub same_selected : Selected → Selected → Bool
same_selected a b = same_entry a.entry b.entry && (not (is_some a.entry) || same_place a b)

-- What the second effect depends on.
abbrev pub Deps : Type 0
Deps = Selected × Bool

abbrev pub same_deps : Deps → Deps → Bool
same_deps a b = same_selected a.0 b.0 && same_flag a.1 b.1

pub selected_object : Cache → Manager → Selected
unfolding selected_entry selected_index
selected_object c s = record {
  bucket = s.bucket;
  index = selected_index c s;
  entry = selected_entry c s;
}

pub deps : Cache → Manager → Deps
unfolding selected_object
deps c s = (selected_object c s, s.creating_key)

pub run_effects : Deps → Cache → Manager → Manager
run_effects before c s =
    let t = auto_select c s in if same_deps before (deps c t) then t else load_editor c t

-- What the user does, and the answers of the queries and of the calls that change something. Picking a
-- revision and formatting as JSON set the editor, as typing does.
pub data Event : Type 0 where
  choose_bucket choose_key type_name type_editor type_filter : String → Event
  start_new_key close_key open_new_bucket close_new_bucket : Event
  put_done put_failed delete_done delete_failed : String → Event
  bucket_deleted : Event
  bucket_created : String → Event
  buckets_answered : List KvBucketInfo → Event
  keys_answered : String → List KvEntry → Event

pub record State : Type 0 where
  pub cache : Cache
  pub manager : Manager

pub handle : Event → Manager → Manager
handle (choose_bucket b) s = record s { bucket = b; selected_key = none; creating_key = false }
handle (choose_key k) s = record s { creating_key = false; selected_key = some k }
handle (type_name v) s = record s { new_key_name = v }
handle (type_editor v) s = record s { editor = v }
handle (type_filter v) s = record s { filter = v }
handle start_new_key s = record s {
  creating_key = true;
  selected_key = none;
  new_key_name = "";
  editor = "";
  err = "";
}
handle close_key s = record s { creating_key = false; selected_key = none }
handle open_new_bucket s = record s { show_new_bucket = true }
handle close_new_bucket s = record s { show_new_bucket = false }
handle (put_done key) s = record s { creating_key = false; selected_key = some key; err = "" }
handle (put_failed message) s = record s { err = message }
handle (delete_done key) s =
    if elim s.selected_key [ none ↦ false | some k ↦ str_eq k key ]
    then record s { selected_key = none; editor = "" }
    else s
handle (delete_failed message) s = record s { err = message }
handle bucket_deleted s = record s { bucket = ""; selected_key = none }
handle (bucket_created b) s = record s { bucket = b; show_new_bucket = false }
handle (buckets_answered bs) s = s
handle (keys_answered b es) s = s

pub handle_cache : Event → Cache → Cache
handle_cache (buckets_answered bs) c = record c { buckets = some bs }
handle_cache (keys_answered b es) c = record c { keys = insert b es c.keys }
handle_cache _ c = c

-- A handler and then the effects.
pub step : State → Event → State
step st e =
    let c = handle_cache e st.cache in
    record { cache = c; manager = run_effects (deps st.cache st.manager) c (handle e st.manager) }

-- What `putMut` sends.
pub record Put : Type 0 where
  pub bucket : String
  pub key : String
  pub value : String

abbrev chosen_name : Manager → Option String
chosen_name s = if s.creating_key then some s.new_key_name else s.selected_key

abbrev trimmed_name : Option String → String
trimmed_name none = ""
trimmed_name (some name) = trim name

-- `save`, before the effects.
pub save : Manager → Manager × Option Put
save s =
    let key = trimmed_name (chosen_name s) in
    if str_eq key ""
    then (record s { err = "Key name is required" }, none)
    else (s, some (record { bucket = s.bucket; key = key; value = s.editor }))

-- `dirty`.
pub dirty : Cache → Manager → Bool
dirty c s =
    s.creating_key
    || elim (selected_entry c s) [ none ↦ false | some e ↦ not (str_eq s.editor e.value) ]

-- Whether the button that saves can be pressed, where no call waits for its answer.
pub can_save : Cache → Manager → Bool
can_save c s = dirty c s || s.creating_key

pub filtered_keys : (String → String) → Cache → Manager → List KvEntry
filtered_keys lower c s =
    let f = lower (trim s.filter) in
    elim (keys_of c s) [
      | none ↦ []
      | some es ↦ if str_eq f "" then es else filter (λ e. includes f (lower e.key)) es
    ]

pub meta : Cache → Manager → Option KvBucketInfo
meta c s = elim c.buckets [ none ↦ none | some bs ↦ find? (λ b. str_eq b.bucket s.bucket) bs ]
