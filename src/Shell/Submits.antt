-- ===== src/Shell/Submits.antt =====
-- What the two forms that connect ask for.
use nats_ui.Prelude.{String, str_eq, ◌≡◌, refl, inl, inr, true, false, ◌||◌, none, some, Bool-cases}
use nats_ui.NatsAuth.{NatsAuth}
use nats_ui.Publisher.Placeholders.{trim}
use nats_ui.Tail.{starts_with}
use nats_ui.Shell.Address.{form_url, normalize_nats_url-form_url}
use nats_ui.Shell.Forms.{Form, ConnectBody, waiting, or_text, submit_setup, handle_connect}

or_text-filled : (a b : String) → str_eq b "" ≡ false → str_eq (or_text a b) "" ≡ false
or_text-filled a b e = elim (Bool-cases (str_eq a "")) [ inl h ↦ rw h e | inr h ↦ rw h h ]

form_url-blank : (field : String) → trim field ≡ "" → form_url field ≡ ""
unfolding form_url
form_url-blank field e = rw (form_url, e) refl

-- For an address that is not blank the setup screen makes one call, under a name that is not empty
-- and with a URL that has a scheme, which is the URL that the form of the settings asks for. For a
-- blank address the setup screen makes no call, and the form of the settings asks for the URL "".
pub submit_setup-handle_connect :
    (address name : String) (auth : NatsAuth) (f : Form)
    → (str_eq (trim address) "" ≡ false
        → (b : ConnectBody) × (submit_setup address name auth f ≡ (waiting, some b))
          × (str_eq b.name "" ≡ false)
          × ((starts_with "nats://" b.url || starts_with "tls://" b.url) ≡ true)
          × (b.url ≡ (handle_connect address name auth).1.url)
          × (b.auth ≡ (handle_connect address name auth).1.auth))
      × (trim address ≡ ""
          → ((submit_setup address name auth f).1 ≡ none)
            × ((submit_setup address name auth f).0.loading ≡ f.loading)
            × ((handle_connect address name auth).1.url ≡ ""))
unfolding submit_setup handle_connect
submit_setup-handle_connect address name auth f =
    let (same, scheme) = normalize_nats_url-form_url address in
    (
      (λ e.
          rw e (
            _,
            refl,
            or_text-filled (trim name) (trim address) e,
            rw same (scheme e).0,
            same,
            refl,
          )),
      (λ e. rw e (refl, refl, form_url-blank address e)),
    )
