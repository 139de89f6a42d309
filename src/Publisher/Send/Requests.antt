-- ===== src/Publisher/Send/Requests.antt =====
-- The request of one message: which values of placeholders it depends on.
use nats_ui.Prelude.{if◌then◌else◌, ℕ, String, ◌≡◌, none, All, Dict, or_else}
use nats_ui.Types.Publishing.{PublishRequest}
use nats_ui.Store.Views.{PublisherTab}
use nats_ui.Publisher.Placeholders.{Fresh, trim, tokens, pieces_of, substitute, custom_placeholders}
use nats_ui.Publisher.Placeholders.Values.{Agrees, AgreesIfCustom, All-custom, fill-AgreesIfCustom}
use nats_ui.Publisher.Placeholders.Blanks.{tokens-trim}
use nats_ui.Publisher.Send.{Runtime, is_base64, no_opts, build_req}

substitute-AgreesIfCustom :
    (fresh : Fresh) (text : String) (vars vars' : Dict String) (seq : ℕ)
    → All (AgreesIfCustom vars vars') (tokens (pieces_of text))
    → substitute fresh text vars seq ≡ substitute fresh text vars' seq
unfolding substitute
substitute-AgreesIfCustom fresh text vars vars' seq h =
    fill-AgreesIfCustom fresh vars vars' seq (pieces_of text) h

-- But for its message identifier, a request depends on no other values than those of the custom
-- placeholders that the form asks for, which it finds in the subject as it is typed and in the payload:
-- with values that agree on these, the trimmed subject, the payload and all else that is sent are the
-- same.
pub build_req-custom_placeholders :
    (rt : Runtime) (vars vars' : Dict String) (tab : PublisherTab) (seq : ℕ)
    → All (Agrees vars vars') (custom_placeholders tab.subject tab.payload)
    → let without_id = λ (r : PublishRequest). record r { msg_id = none } in
      without_id (build_req rt vars tab seq) ≡ without_id (build_req rt vars' tab seq)
unfolding build_req
build_req-custom_placeholders rt vars vars' tab seq h =
    let (subject, payload) = All-custom tab.subject tab.payload vars vars' h in
    let sent_subject =
      substitute-AgreesIfCustom (rt.fresh seq 0) (trim tab.subject) vars vars' seq
        (rw (tokens-trim tab.subject) subject) in
    let sent_payload =
      substitute-AgreesIfCustom (rt.fresh seq 1) tab.payload vars vars' seq payload in
    λ i. record (build_req rt vars tab seq) {
      subject = sent_subject i;
      payload =
          if is_base64 (or_else tab.opts no_opts).encoding then tab.payload else sent_payload i;
      msg_id = none;
    }
