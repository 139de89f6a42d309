-- ===== src/Objects/Tests.antt =====
-- A view of one bucket.
use Prim.Native.Char.{code}
use nats_ui.Publisher.Placeholders.{trim}
use nats_ui.Prelude.{
  ℕ, zero, suc, ◌==◌, if◌then◌else◌, str_eq, arith, String, ◌≡◌, refl, true, false, Option, none,
  some, List, [], ◌∷◌,
}
use nats_ui.Objects.{
  bin_from, bytes_to_b64, b64_to_bytes, count_control, decode_text, Objects, initial_objects,
  auto_select, save_text, step, run, handle, press_save, choose_object, upload_done, save_failed,
  start_text, buckets_answered, shown_error, open_object, ObjectBucketInfo,
}
use nats_ui.Objects.Base64.{b64_to_bytes-bytes_to_b64}
use nats_ui.Objects.Late.{shown_error-press_save}

-- A code of lists of numbers: each as so many `a`, ended by `b`.
abbrev put_unary : ℕ → String → String
put_unary zero rest = String.◌∷◌ "b" rest
put_unary (suc n) rest = String.◌∷◌ "a" (put_unary n rest)

abbrev write : List ℕ → String
write [] = ""
write (b ∷ bs) = put_unary b (write bs)

abbrev add_one : Option (List ℕ) → Option (List ℕ)
add_one none = none
add_one (some []) = none
add_one (some (b ∷ bs)) = some (suc b ∷ bs)

abbrev add_zero : Option (List ℕ) → Option (List ℕ)
add_zero none = none
add_zero (some bs) = some (0 ∷ bs)

abbrev read : String → Option (List ℕ)
read String.[] = some []
read (String.◌∷◌ c s) = let rest = read s in if code c == b'a' then add_one rest else add_zero rest

read-put_unary :
    (n : ℕ) (s : String) (bs : List ℕ) → read s ≡ some bs → read (put_unary n s) ≡ some (n ∷ bs)
read-put_unary zero s bs h = rw h refl
read-put_unary (suc n) s bs h = rw (read-put_unary n s bs h) refl

read-write : (bs : List ℕ) → read (write bs) ≡ some bs
read-write [] = refl
read-write (b ∷ bs) = read-put_unary b (write bs) bs (read-write bs)

abbrev file : List ℕ
file = 3 ∷ 255 ∷ []

b64_to_bytes-bytes_to_b64_example : b64_to_bytes read (bytes_to_b64 write file) ≡ some file
b64_to_bytes-bytes_to_b64_example =
    b64_to_bytes-bytes_to_b64 write read file (λ bs h. read-write bs)
      (omega arith, (omega arith, tt))

base64_tests :
    (bytes_to_b64 write (1 ∷ 0 ∷ []) ≡ "abb")
    × (b64_to_bytes read "a" ≡ none)
    × ((decode_text read (λ bs. bs) "a").binary ≡ true)
    × ((decode_text read (λ bs. bs) (write (65 ∷ 1 ∷ []))).binary ≡ false)
unfolding bytes_to_b64 bin_from b64_to_bytes decode_text count_control
base64_tests = (refl, refl, refl, refl)

abbrev bucket : ObjectBucketInfo
bucket = record { bucket = "b"; description = none; size = 0; ttl = 0; replicas = 1 }

abbrev writing : Objects
writing = run (buckets_answered (bucket ∷ []) ∷ start_text ∷ []) initial_objects

writing_tests :
    (writing.bucket ≡ "b")
    × ((step (upload_done "f") writing).selected ≡ some "f")
    × (shown_error (step (choose_object "f") (step press_save writing))
        ≡ some "Object name is required")
unfolding run step handle auto_select initial_objects save_text shown_error open_object trim
writing_tests = (refl, refl, refl)

blank_writing : (writing.creating_text ≡ true) × (str_eq (trim writing.new_name) "" ≡ true)
unfolding run step handle auto_select initial_objects trim
blank_writing = (refl, refl)

shown_error-press_save_example :
    (str_eq (trim writing.new_name) "" ≡ true
      → ((save_text writing).1 ≡ none)
        × (shown_error (step press_save writing) ≡ none)
        × (shown_error (step (choose_object "f") (step press_save writing))
            ≡ some "Object name is required"))
    × ((shown_error (step (save_failed "no") writing) ≡ none)
        × (shown_error (step (choose_object "f") (step (save_failed "no") writing)) ≡ some "no"))
shown_error-press_save_example = shown_error-press_save writing "f" "no" blank_writing.0 refl refl
