-- ===== src/Kv/Buckets.antt =====
-- The form for a new bucket, `NewBucketModal` of frontend/src/components/kv/KVManager.tsx. `create` is
-- in two halves, up to the call and from its failure; a success closes the form.
use Prim.Native.Char.{Char, code}
use nats_ui.Prelude.{
  ℕ, String, str_eq, Bool, true, false, not, ◌&&◌, ◌||◌, Option, none, some, List, [], ◌∷◌, ◌≡◌,
  refl, Bool-cases, inl, inr, arith, leb, ◌==◌, if◌then◌else◌,
}
use nats_ui.Types.Streams.{StorageType, file}
use nats_ui.Publisher.Placeholders.{trim}
use nats_ui.Widgets.{Stepper, decrease, increase, IsWithin, stepped-IsWithin}

pub record KvBucketConfig : Type 0 where
  pub bucket : String
  pub description : String
  pub history : ℕ
  pub ttl : ℕ
  pub storage : StorageType
  pub replicas : ℕ
  pub max_value_size : ℕ

pub record BucketForm : Type 0 where
  pub name : String
  pub description : String
  pub history : ℕ
  pub ttl : ℕ
  pub replicas : ℕ
  pub storage : StorageType
  pub busy : Bool
  pub error : String

unfoldable pub initial_form : BucketForm
initial_form = record {
  name = "";
  description = "";
  history = 1;
  ttl = 0;
  replicas = 1;
  storage = file;
  busy = false;
  error = "";
}

-- `[A-Za-z0-9_-]`.
abbrev pub is_name_char : Char → Bool
is_name_char c =
    let n = code c in
    (leb b'A' n && leb n b'Z')
    || (leb b'a' n && leb n b'z')
    || (leb b'0' n && leb n b'9')
    || n == b'_'
    || n == b'-'

-- The characters of `^[A-Za-z0-9_-]+$`.
unfoldable pub all_name_chars : String → Bool
all_name_chars String.[] = true
all_name_chars (String.◌∷◌ c s) = is_name_char c && all_name_chars s

unfoldable pub valid_name : String → Bool
unfolding all_name_chars
valid_name s = not (str_eq s "") && all_name_chars s

unfoldable pub create : BucketForm → BucketForm × Option KvBucketConfig
create f =
    let name = trim f.name in
    if str_eq name ""
    then (record f { error = "Bucket name is required" }, none)
    else if not (valid_name name)
    then (record f { error = "Bucket name may only contain letters, numbers, - and _" }, none)
    else (
      record f { busy = true; error = "" },
      some (record {
        bucket = name;
        description = trim f.description;
        history = f.history;
        ttl = f.ttl;
        storage = f.storage;
        replicas = f.replicas;
        max_value_size = 0;
      }),
    )

pub create_failed : String → BucketForm → BucketForm
create_failed message f = record f { error = message; busy = false }

abbrev pub history_stepper : Stepper
history_stepper = record { low = 1; high = some 64; step = 1 }

abbrev pub replicas_stepper : Stepper
replicas_stepper = record { low = 1; high = some 5; step = 1 }

abbrev pub ttl_stepper : Stepper
ttl_stepper = record { low = 0; high = none; step = 60 }

-- What the user changes in the form.
pub data Edit : Type 0 where
  set_name set_description : String → Edit
  set_storage : StorageType → Edit
  less_history more_history less_ttl more_ttl less_replicas more_replicas : Edit

unfoldable pub edit : Edit → BucketForm → BucketForm
edit (set_name v) f = record f { name = v }
edit (set_description v) f = record f { description = v }
edit (set_storage v) f = record f { storage = v }
edit less_history f = record f { history = decrease history_stepper f.history }
edit more_history f = record f { history = increase history_stepper f.history }
edit less_ttl f = record f { ttl = decrease ttl_stepper f.ttl }
edit more_ttl f = record f { ttl = increase ttl_stepper f.ttl }
edit less_replicas f = record f { replicas = decrease replicas_stepper f.replicas }
edit more_replicas f = record f { replicas = increase replicas_stepper f.replicas }

unfoldable pub run_edits : List Edit → BucketForm → BucketForm
unfolding edit
run_edits [] f = f
run_edits (e ∷ es) f = run_edits es (edit e f)

-- A form that the user can bring about.
record IsBounded (f : BucketForm) : Type 0 where
  history : IsWithin history_stepper f.history
  ttl : IsWithin ttl_stepper f.ttl
  replicas : IsWithin replicas_stepper f.replicas

edit-IsBounded : (e : Edit) (f : BucketForm) → IsBounded f → IsBounded (edit e f)
unfolding edit
edit-IsBounded (set_name v) f h = record { history = h.history; ttl = h.ttl; replicas = h.replicas }
edit-IsBounded (set_description v) f h = record {
  history = h.history;
  ttl = h.ttl;
  replicas = h.replicas;
}
edit-IsBounded (set_storage v) f h = record {
  history = h.history;
  ttl = h.ttl;
  replicas = h.replicas;
}
edit-IsBounded less_history f h = record {
  history = (stepped-IsWithin history_stepper f.history (omega arith) h.history).0;
  ttl = h.ttl;
  replicas = h.replicas;
}
edit-IsBounded more_history f h = record {
  history = (stepped-IsWithin history_stepper f.history (omega arith) h.history).1;
  ttl = h.ttl;
  replicas = h.replicas;
}
edit-IsBounded less_ttl f h = record {
  history = h.history;
  ttl = (stepped-IsWithin ttl_stepper f.ttl tt h.ttl).0;
  replicas = h.replicas;
}
edit-IsBounded more_ttl f h = record {
  history = h.history;
  ttl = (stepped-IsWithin ttl_stepper f.ttl tt h.ttl).1;
  replicas = h.replicas;
}
edit-IsBounded less_replicas f h = record {
  history = h.history;
  ttl = h.ttl;
  replicas = (stepped-IsWithin replicas_stepper f.replicas (omega arith) h.replicas).0;
}
edit-IsBounded more_replicas f h = record {
  history = h.history;
  ttl = h.ttl;
  replicas = (stepped-IsWithin replicas_stepper f.replicas (omega arith) h.replicas).1;
}

run_edits-IsBounded : (es : List Edit) (f : BucketForm) → IsBounded f → IsBounded (run_edits es f)
unfolding run_edits
run_edits-IsBounded [] f h = h
run_edits-IsBounded (e ∷ es) f h = run_edits-IsBounded es (edit e f) (edit-IsBounded e f h)

initial-IsBounded : IsBounded initial_form
unfolding initial_form
initial-IsBounded = record {
  history = record { above = omega arith; below = omega arith };
  ttl = record { above = omega arith; below = tt };
  replicas = record { above = omega arith; below = omega arith };
}

valid_name-filled : (s : String) → valid_name s ≡ true → str_eq s "" ≡ false
unfolding valid_name
valid_name-filled s h = ground arith

-- However the form is filled in, it makes a call exactly where the trimmed name is not empty and has
-- only letters, digits, - and _. The bucket asked for has this name, keeps 1 to 64 revisions of a key
-- and 1 to 5 replicas.
pub create-IsSafe :
    (es : List Edit)
    → let f = run_edits es initial_form in
      (valid_name (trim f.name) ≡ false → (create f).1 ≡ none)
      × (valid_name (trim f.name) ≡ true
          → (b : KvBucketConfig) × ((create f).1 ≡ some b)
            × (b.bucket ≡ trim f.name)
            × IsWithin history_stepper b.history
            × IsWithin replicas_stepper b.replicas)
unfolding create
create-IsSafe es =
    let f = run_edits es initial_form in
    let bounded = run_edits-IsBounded es initial_form initial-IsBounded in
    elim (Bool-cases (str_eq (trim f.name) "")) [
      | inl e ↦ (
        λ h. rw (create, e) refl,
        λ h. absurd (ground (arith, e, valid_name-filled (trim f.name) h)),
      )
      | inr e ↦ (
        λ h. rw (create, e, h) refl,
        λ h. rw (create, e, h) (_, refl, refl, bounded.history, bounded.replicas),
      )
    ]
