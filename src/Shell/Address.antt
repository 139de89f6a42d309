-- ===== src/Shell/Address.antt =====
-- The address of a server as a URL: `normalizeNatsURL` of
-- frontend/src/components/auth/ConnectionSetup.tsx, and the same written again in `handleConnect` of
-- frontend/src/components/layout/AppShell.tsx.
use nats_ui.Prelude.{
  String, str_eq, str_eq_iff, str_eq_refl, ◌^+◌, ◌≡◌, refl, sym, inl, inr, true, false, not, ◌&&◌,
  ◌||◌, if◌then◌else◌, Bool-cases,
}
use text.Mathlib.TextLemmas.{append-nil, append_assoc, cons-append}
use nats_ui.Publisher.Placeholders.{trim}
use nats_ui.Publisher.Placeholders.Trimming.{
  IsTrimmed, trim-IsTrimmed, append-IsTrimmed, cons_filled,
}
use nats_ui.Tail.{starts_with, includes}

unfoldable pub normalize_nats_url : String → String
normalize_nats_url input =
    let v = trim input in
    if str_eq v ""
    then ""
    else if starts_with "nats://" v || starts_with "tls://" v
    then v
    else if includes ":" v
    then "nats://" ^+ v
    else ("nats://" ^+ v) ^+ ":4222"

-- The `url` of `handleConnect`, for the text of the field.
unfoldable pub form_url : String → String
form_url field =
    let raw = trim field in
    if not (str_eq raw "") && (not (starts_with "nats://" raw) && not (starts_with "tls://" raw))
    then ("nats://" ^+ raw) ^+ (if includes ":" raw then "" else ":4222")
    else raw

normalize-agrees : (field : String) → normalize_nats_url (trim field) ≡ form_url field
unfolding normalize_nats_url form_url
normalize-agrees field =
    let v = trim field in
    rw (trim-IsTrimmed field) (elim (Bool-cases (str_eq v "")) [
      | inl e ↦ rw e (sym ((str_eq_iff v "").0 e))
      | inr e ↦ elim (Bool-cases (starts_with "nats://" v)) [
        | inl n ↦ rw (e, n) refl
        | inr n ↦ elim (Bool-cases (starts_with "tls://" v)) [
          | inl t ↦ rw (e, n, t) refl
          | inr t ↦ elim (Bool-cases (includes ":" v)) [
            | inl c ↦ rw (e, n, t, c) (sym (append-nil ("nats://" ^+ v)))
            | inr c ↦ rw (e, n, t, c) refl
          ]
        ]
      ]
    ])

abbrev scheme_rest : String
scheme_rest = "ats://"

-- A trimmed text with a scheme in front, as `n` and what follows.
schemed : (v : String) → ("nats://" ^+ v) ≡ String.◌∷◌ "n" (scheme_rest ^+ v)
schemed v = cons-append "n" scheme_rest v

starts_with-append : (p v : String) → starts_with p (p ^+ v) ≡ true
unfolding starts_with
starts_with-append String.[] v = refl
starts_with-append (String.◌∷◌ c p) v =
    rw (cons-append, str_eq_refl (String.◌∷◌ c String.[])) (starts_with-append p v)

schemed-IsTrimmed : (v : String) → IsTrimmed v → str_eq v "" ≡ false → IsTrimmed ("nats://" ^+ v)
schemed-IsTrimmed v h e = rw (schemed v) (append-IsTrimmed "n" scheme_rest v refl h e)

ported : (v : String) → (("nats://" ^+ v) ^+ ":4222") ≡ ("nats://" ^+ (v ^+ ":4222"))
ported v = append_assoc "nats://" v ":4222"

ported-IsTrimmed : (v : String) → IsTrimmed ("nats://" ^+ (v ^+ ":4222"))
ported-IsTrimmed v =
    rw (schemed (v ^+ ":4222"), ← append_assoc scheme_rest v ":4222")
      (append-IsTrimmed "n" (scheme_rest ^+ v) ":4222" refl (unfold trim in refl) refl)

-- What a URL of a server is: trimmed, not empty, and with one of the two schemes.
record IsUrl (url : String) : Type 0 where
  trimmed : IsTrimmed url
  filled : str_eq url "" ≡ false
  has_scheme : (starts_with "nats://" url || starts_with "tls://" url) ≡ true

schemed-IsUrl : (v : String) → IsTrimmed ("nats://" ^+ v) → IsUrl ("nats://" ^+ v)
schemed-IsUrl v h = record {
  trimmed = h;
  filled = rw (schemed v) (cons_filled "n" (scheme_rest ^+ v));
  has_scheme = rw (starts_with-append "nats://" v) refl;
}

form_url-IsUrl : (field : String) → str_eq (trim field) "" ≡ false → IsUrl (form_url field)
unfolding form_url
form_url-IsUrl field e =
    let v = trim field in
    let h : IsTrimmed v = trim-IsTrimmed field in
    elim (Bool-cases (starts_with "nats://" v)) [
      | inl n ↦ rw (e, n) (record { trimmed = h; filled = e; has_scheme = rw n refl })
      | inr n ↦ elim (Bool-cases (starts_with "tls://" v)) [
        | inl t ↦ rw (e, n, t) (record { trimmed = h; filled = e; has_scheme = rw (n, t) refl })
        | inr t ↦ elim (Bool-cases (includes ":" v)) [
          | inl c ↦
              rw (e, n, t, c, append-nil ("nats://" ^+ v))
                (schemed-IsUrl v (schemed-IsTrimmed v h e))
          | inr c ↦ rw (e, n, t, c, ported v) (schemed-IsUrl (v ^+ ":4222") (ported-IsTrimmed v))
        ]
      ]
    ]

normalize-of_IsUrl : (url : String) → IsUrl url → normalize_nats_url url ≡ url
unfolding normalize_nats_url
normalize-of_IsUrl url h = rw (h.trimmed, h.filled, h.has_scheme) refl

-- Both forms make the same URL of what is typed. Where that is not blank, the URL has a scheme, and
-- typing the URL itself gives it again.
pub normalize_nats_url-form_url :
    (field : String)
    → (normalize_nats_url (trim field) ≡ form_url field)
      × (str_eq (trim field) "" ≡ false
          → ((starts_with "nats://" (form_url field) || starts_with "tls://" (form_url field))
              ≡ true)
            × (normalize_nats_url (form_url field) ≡ form_url field))
normalize_nats_url-form_url field = (
  normalize-agrees field,
  λ e.
      let url = form_url-IsUrl field e in (url.has_scheme, normalize-of_IsUrl (form_url field) url),
)
