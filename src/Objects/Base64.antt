-- ===== src/Objects/Base64.antt =====
-- Files as base 64, and back.
use nats_ui.Prelude.{
  ℕ, zero, suc, ◌+◌, ◌%◌, ◌≤◌, ◌<◌, String, ◌≡◌, refl, ap, inl, inr, Option, some, List, [], ◌∷◌,
  ◌++◌, append-nil, append_assoc, map, length, take, drop, All, ltb, Bool-cases, arith,
}
use nats_ui.Slices.{drop-beyond, drop-drop, take-drop}
use nats_ui.Objects.{chunk_size, bin_from, bytes_to_b64, b64_to_bytes}

-- From byte `i`, enough rounds read the rest of the file.
bin_from-drop :
    (f i : ℕ) (bytes bin : List ℕ)
    → length bytes ≤ i + f
    → bin_from f i bytes bin ≡ bin ++ drop i bytes
unfolding bin_from
bin_from-drop zero i bytes bin h = rw (drop-beyond i bytes (omega (arith, h)), append-nil bin) refl
bin_from-drop (suc f) i bytes bin h = elim (Bool-cases (ltb i (length bytes))) [
  | inl e ↦
      let piece = take chunk_size (drop i bytes) in
      rw
        (
          e,
          bin_from-drop f (i + chunk_size) bytes (bin ++ piece) (omega (arith, h)),
          append_assoc bin piece (drop (i + chunk_size) bytes),
          drop-drop i chunk_size bytes,
          take-drop chunk_size (drop i bytes),
        )
        refl
  | inr e ↦ rw (e, drop-beyond i bytes (ground (arith, e)), append-nil bin) refl
]

bytes_to_b64_lem : (btoa : List ℕ → String) (bytes : List ℕ) → bytes_to_b64 btoa bytes ≡ btoa bytes
unfolding bytes_to_b64
bytes_to_b64_lem btoa bytes = ap btoa (bin_from-drop (length bytes) 0 bytes [] (omega arith))

map-mod : (bytes : List ℕ) → All (λ b. b < 256) bytes → map (λ c. c % 256) bytes ≡ bytes
map-mod [] h = refl
map-mod (b ∷ bytes) (h, hs) =
    let same : b % 256 ≡ b = omega (arith, h) in rw (same, map-mod bytes hs) refl

-- Where `atob` reads what `btoa` writes of bytes, every file of bytes, however many rounds it takes, is read back from the base 64 that is
-- uploaded.
pub b64_to_bytes-bytes_to_b64 :
    (btoa : List ℕ → String) (atob : String → Option (List ℕ)) (bytes : List ℕ)
    → ((bs : List ℕ) → All (λ b. b < 256) bs → atob (btoa bs) ≡ some bs)
    → All (λ b. b < 256) bytes
    → b64_to_bytes atob (bytes_to_b64 btoa bytes) ≡ some bytes
unfolding b64_to_bytes
b64_to_bytes-bytes_to_b64 btoa atob bytes inverse small =
    rw (bytes_to_b64_lem btoa bytes, b64_to_bytes, inverse bytes small, map-mod bytes small) refl
