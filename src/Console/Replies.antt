-- ===== src/Console/Replies.antt =====
-- What the console asks for, and how many replies it keeps.
use nats_ui.Prelude.{
  ◌≤◌, String, str_eq, str_eq_iff, ◌≡◌, refl, sym, false, ◌⊎◌, inl, inr, Option, none, some, List,
  [], ◌∷◌, length, length-take_le, All, Dict, insert, Bool-cases, arith,
}
use mathlib.Core.Path.{subst}
use nats_ui.Publisher.Placeholders.{trim}
use nats_ui.Publisher.Placeholders.Trimming.{IsTrimmed, trim-IsTrimmed}
use nats_ui.Store.Views.{Header}
use nats_ui.Widgets.{IsWithin, stepped-IsWithin}
use nats_ui.Console.{
  Console, Request, Event, type_subject, type_payload, failure, new_header, less_time, more_time,
  patch_header, drop_header, click_send, reply, click_history, entries_from, or_undefined,
  history_limit, timeout_stepper, initial_console, send, answered, failed, recall, add_header,
  set_header, remove_header, handle, run,
}

-- A name as a header can have it: trimmed and not empty.
abbrev pub IsName : String × String → Type 0
IsName e = IsTrimmed e.0 × (str_eq e.0 "" ≡ false)

insert-All :
    (P : String × String → Type 0) (k v : String) (m : Dict String)
    → P (k, v)
    → All P m
    → All P (insert k v m)
unfolding insert
insert-All P k v [] h a = (h, tt)
insert-All P k v ((j, w) ∷ m) h a = elim (Bool-cases (str_eq j k)) [
  | inl e ↦ rw e (subst (λ x. P (x, v)) (sym ((str_eq_iff j k).0 e)) h, a.1)
  | inr e ↦ rw e (a.0, insert-All P k v m h a.1)
]

entries_from-All :
    (hs : List Header) (m : Dict String) → All IsName m → All IsName (entries_from m hs)
unfolding entries_from
entries_from-All [] m a = a
entries_from-All (h ∷ hs) m a = elim (Bool-cases (str_eq (trim h.key) "")) [
  | inl e ↦ rw e (entries_from-All hs m a)
  | inr e ↦ rw e (
      entries_from-All hs (insert (trim h.key) h.value m)
        (insert-All IsName (trim h.key) h.value m (trim-IsTrimmed h.key, e) a))
]

-- The names of the headers of a request, where it has any.
abbrev pub AllNames : Option (Dict String) → Type 0
AllNames none = Unit
AllNames (some m) = All IsName m

or_undefined-AllNames : (m : Dict String) → All IsName m → AllNames (or_undefined m)
or_undefined-AllNames [] a = tt
or_undefined-AllNames (e ∷ m) a = a

record IsLimited (s : Console) : Type 0 where
  history : length s.history ≤ history_limit
  timeout : IsWithin timeout_stepper s.timeout_ms

send-IsLimited : (c : String) (s : Console) → IsLimited s → IsLimited (send c s).0
unfolding send
send-IsLimited c s v = elim (Bool-cases (str_eq (trim s.subject) "")) [
  | inl e ↦ rw e (record { history = v.history; timeout = v.timeout })
  | inr e ↦ elim (Bool-cases (str_eq c "")) [
    | inl d ↦ rw (e, d) (record { history = v.history; timeout = v.timeout })
    | inr d ↦ rw (e, d) (record { history = v.history; timeout = v.timeout })
  ]
]

handle-IsLimited : (e : Event) (s : Console) → IsLimited s → IsLimited (handle e s)
unfolding handle answered failed recall add_header set_header remove_header
handle-IsLimited (type_subject t) s v = record { history = v.history; timeout = v.timeout }
handle-IsLimited (type_payload t) s v = record { history = v.history; timeout = v.timeout }
handle-IsLimited (failure t) s v = record { history = v.history; timeout = v.timeout }
handle-IsLimited new_header s v = record { history = v.history; timeout = v.timeout }
handle-IsLimited less_time s v = record {
  history = v.history;
  timeout = (stepped-IsWithin timeout_stepper s.timeout_ms (omega arith) v.timeout).0;
}
handle-IsLimited more_time s v = record {
  history = v.history;
  timeout = (stepped-IsWithin timeout_stepper s.timeout_ms (omega arith) v.timeout).1;
}
handle-IsLimited (patch_header i p) s v = record { history = v.history; timeout = v.timeout }
handle-IsLimited (drop_header i) s v = record { history = v.history; timeout = v.timeout }
handle-IsLimited (click_send c) s v = send-IsLimited c s v
handle-IsLimited (reply now asked res) s v = record {
  history =
      length-take_le history_limit (record { subject = asked; res = res; at = now } ∷ s.history);
  timeout = v.timeout;
}
handle-IsLimited (click_history h) s v = record { history = v.history; timeout = v.timeout }

run-IsLimited : (es : List Event) (s : Console) → IsLimited s → IsLimited (run es s)
unfolding run
run-IsLimited [] s v = v
run-IsLimited (e ∷ es) s v = run-IsLimited es (handle e s) (handle-IsLimited e s v)

initial-IsLimited : IsLimited initial_console
unfolding initial_console
initial-IsLimited = record {
  history = omega arith;
  timeout = record { above = omega arith; below = omega arith };
}

send-none : (c : String) (s : Console) → (trim s.subject ≡ "") ⊎ (c ≡ "") → (send c s).1 ≡ none
unfolding send
send-none c s (inl e) = rw (send, e) refl
send-none c s (inr d) = elim (Bool-cases (str_eq (trim s.subject) "")) [
  | inl e ↦ rw (send, e) refl
  | inr e ↦ rw (send, e, d) refl
]

-- Whatever is done with the console, at most 20 replies are kept. A blank subject, or no cluster,
-- makes no request; else one goes to the trimmed subject, all names of its headers are trimmed and
-- not empty, and it waits between 100 and 30000 ms.
pub run-send :
    (es : List Event) (c : String)
    → let s = run es initial_console in
      (length s.history ≤ history_limit)
      × ((trim s.subject ≡ "") ⊎ (c ≡ "") → (send c s).1 ≡ none)
      × (str_eq (trim s.subject) "" ≡ false
          → str_eq c "" ≡ false
          → (r : Request) × ((send c s).1 ≡ some r)
            × (r.subject ≡ trim s.subject)
            × AllNames r.headers
            × IsWithin timeout_stepper r.timeout_ms)
unfolding send
run-send es c =
    let s = run es initial_console in
    let valid = run-IsLimited es initial_console initial-IsLimited in
    (
      valid.history,
      send-none c s,
      (λ e d.
          rw (send, e, d)
            (
              _,
              refl,
              refl,
              or_undefined-AllNames (entries_from [] s.headers) (entries_from-All s.headers [] tt),
              valid.timeout,
            )),
    )
