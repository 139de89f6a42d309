-- ===== src/Replay/Identifiers.antt =====
-- The identifiers of replays.
use Prim.Native.Char.{Char}
use nats_ui.Prelude.{
  ℕ, ◌+◌, ◌≤◌, String, str_eq, ◌^+◌, decimal, decimal_inj, split_at, Avoids-decimal, ◌≡◌, ◌≢◌, refl,
  sym, ◌∙◌, ap, false, inl, Option, [], ◌∷◌, arith,
}
use text.Mathlib.TextLemmas.{cons-append, nil-append, append_cancel_left}
use nats_ui.Types.Replays.{ReplayConfig}
use nats_ui.Replay.{Studio, replay_start, new_replay_id, replay_config, handle_start}

abbrev dash : Char
dash = "-"

new_replay_id-shape :
    (n now : ℕ) → new_replay_id n now ≡ ("replay-" ^+ (decimal n ^+ String.◌∷◌ dash (decimal now)))
unfolding new_replay_id
new_replay_id-shape n now =
    ap (λ x. "replay-" ^+ (decimal n ^+ x))
      (cons-append dash "" (decimal now) ∙ ap (String.◌∷◌ dash) (nil-append (decimal now)))

new_replay_id_inj : (m n now now' : ℕ) → new_replay_id m now ≡ new_replay_id n now' → m ≡ n
new_replay_id_inj m n now now' e =
    let tail =
      append_cancel_left "replay-" _ _
        (sym (new_replay_id-shape m now) ∙ e ∙ new_replay_id-shape n now') in
    decimal_inj m n
      (split_at dash (decimal m) (decimal n) (decimal now) (decimal now')
        (Avoids-decimal b'-' m (inl (omega arith))) (Avoids-decimal b'-' n (inl (omega arith)))
        tail).0

-- Where a stream is chosen, a start sends one command, and its replay has an identifier that no
-- smaller number of the counter gave at any time; without a stream nothing is sent or counted.
pub handle_start-fresh :
    (parse_int : String → Option ℕ) (iso : String → String) (now : ℕ) (s : Studio)
    → (str_eq s.stream "" ≡ false
        → (config : ReplayConfig) × ((handle_start parse_int iso now s).1
            ≡ replay_start config ∷ [])
          × (config.stream ≡ s.stream)
          × ((n past : ℕ) → n ≤ s.replay_counter → config.id ≢ new_replay_id n past))
      × (s.stream ≡ "" → handle_start parse_int iso now s ≡ (s, []))
unfolding handle_start replay_config
handle_start-fresh parse_int iso now s = (
  (λ e. rw e (
    _,
    refl,
    refl,
    λ n past low same.
        absurd (omega (arith, new_replay_id_inj (s.replay_counter + 1) n now past same)),
  )),
  (λ e. rw e refl),
)
