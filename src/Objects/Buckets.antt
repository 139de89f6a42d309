-- ===== src/Objects/Buckets.antt =====
-- The form for a new bucket, `NewObjectBucket` of frontend/src/components/objects/ObjectStore.tsx. Its
-- steppers for replicas and seconds to live are those of the form for a key-value bucket. `create` is
-- in two halves, up to the call and from its failure; a success closes the form.
use nats_ui.Prelude.{
  ℕ, String, Bool, true, false, not, Option, none, some, List, [], ◌∷◌, ◌≡◌, refl, arith,
  if◌then◌else◌,
}
use nats_ui.Types.Streams.{StorageType, file}
use nats_ui.Publisher.Placeholders.{trim}
use nats_ui.Widgets.{decrease, increase, IsWithin, stepped-IsWithin}
use nats_ui.Kv.Buckets.{valid_name, replicas_stepper, ttl_stepper}

pub record ObjectBucketConfig : Type 0 where
  pub bucket : String
  pub description : String
  pub ttl : ℕ
  pub storage : StorageType
  pub replicas : ℕ

pub record ObjectForm : Type 0 where
  pub name : String
  pub description : String
  pub ttl : ℕ
  pub replicas : ℕ
  pub storage : StorageType
  pub busy : Bool
  pub error : String

pub initial_object_form : ObjectForm
initial_object_form = record {
  name = "";
  description = "";
  ttl = 0;
  replicas = 1;
  storage = file;
  busy = false;
  error = "";
}

pub create_object_bucket : ObjectForm → ObjectForm × Option ObjectBucketConfig
create_object_bucket f =
    let name = trim f.name in
    if not (valid_name name)
    then (record f { error = "Bucket name may only contain letters, numbers, - and _" }, none)
    else (
      record f { busy = true; error = "" },
      some (record {
        bucket = name;
        description = trim f.description;
        ttl = f.ttl;
        storage = f.storage;
        replicas = f.replicas;
      }),
    )

pub object_bucket_failed : String → ObjectForm → ObjectForm
object_bucket_failed message f = record f { error = message; busy = false }

-- What the user changes in the form.
pub data ObjectEdit : Type 0 where
  set_name set_description : String → ObjectEdit
  set_storage : StorageType → ObjectEdit
  less_ttl more_ttl less_replicas more_replicas : ObjectEdit

pub edit_object_form : ObjectEdit → ObjectForm → ObjectForm
edit_object_form (set_name v) f = record f { name = v }
edit_object_form (set_description v) f = record f { description = v }
edit_object_form (set_storage v) f = record f { storage = v }
edit_object_form less_ttl f = record f { ttl = decrease ttl_stepper f.ttl }
edit_object_form more_ttl f = record f { ttl = increase ttl_stepper f.ttl }
edit_object_form less_replicas f = record f { replicas = decrease replicas_stepper f.replicas }
edit_object_form more_replicas f = record f { replicas = increase replicas_stepper f.replicas }

pub run_object_edits : List ObjectEdit → ObjectForm → ObjectForm
run_object_edits [] f = f
run_object_edits (e ∷ es) f = run_object_edits es (edit_object_form e f)

edit_object_form-replicas :
    (e : ObjectEdit) (f : ObjectForm)
    → IsWithin replicas_stepper f.replicas
    → IsWithin replicas_stepper (edit_object_form e f).replicas
unfolding edit_object_form
edit_object_form-replicas less_replicas f h =
    (stepped-IsWithin replicas_stepper f.replicas (omega arith) h).0
edit_object_form-replicas more_replicas f h =
    (stepped-IsWithin replicas_stepper f.replicas (omega arith) h).1
edit_object_form-replicas (set_name v) f h = h
edit_object_form-replicas (set_description v) f h = h
edit_object_form-replicas (set_storage v) f h = h
edit_object_form-replicas less_ttl f h = h
edit_object_form-replicas more_ttl f h = h

run_object_edits-replicas :
    (es : List ObjectEdit) (f : ObjectForm)
    → IsWithin replicas_stepper f.replicas
    → IsWithin replicas_stepper (run_object_edits es f).replicas
unfolding run_object_edits
run_object_edits-replicas [] f h = h
run_object_edits-replicas (e ∷ es) f h =
    run_object_edits-replicas es (edit_object_form e f) (edit_object_form-replicas e f h)

-- However the form is filled in, it makes a call exactly where the trimmed name has one or more
-- letters, digits, - and _ only. The bucket asked for has this name and 1 to 5 replicas.
create_object_bucket-IsSafe :
    (es : List ObjectEdit)
    → let f = run_object_edits es initial_object_form in
      (valid_name (trim f.name) ≡ false → (create_object_bucket f).1 ≡ none)
      × (valid_name (trim f.name) ≡ true
          → (b : ObjectBucketConfig) × ((create_object_bucket f).1 ≡ some b)
            × (b.bucket ≡ trim f.name)
            × IsWithin replicas_stepper b.replicas)
unfolding create_object_bucket initial_object_form
create_object_bucket-IsSafe es =
    let bounded =
      run_object_edits-replicas es initial_object_form
        (record { above = omega arith; below = omega arith }) in
    (
      λ h. rw (create_object_bucket, h) refl,
      λ h. rw (create_object_bucket, h) (_, refl, refl, bounded),
    )
