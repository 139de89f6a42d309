-- ===== src/Socket/Listeners.antt =====
-- `on`, its unsubscribe function, `_dispatch` and `_onMessage` of frontend/src/lib/ws.ts. Callbacks
-- are known by number, as a `Set` tells them apart by identity. What the program does not implement
-- is a parameter: `JSON.parse`, and whether a callback throws. Callbacks that subscribe or
-- unsubscribe while an event is dispatched are left out.
pub mod Frames
pub mod Laws
mod Tests
use Prim.Native.Char.{Char, code}
use Prim.Native.String
use nats_ui.Prelude.{
  ℕ, ◌==◌, String, str_eq, Bool, true, false, not, Option, none, some, or_else, List, [], ◌∷◌, ◌++◌,
  filter, any, Dict, lookup, insert, if◌then◌else◌,
}
use nats_ui.Socket.{Client}

-- `set.add` and `set.delete` of a `Set`, which iterates in the order of insertion.
pub set_add : ℕ → List ℕ → List ℕ
set_add cb s = if any (λ x. x == cb) s then s else s ++ cb ∷ []

pub set_delete : ℕ → List ℕ → List ℕ
set_delete cb s = filter (λ x. not (x == cb)) s

-- `this.listeners.get(type) ?? []`.
pub listeners_of : String → Client → List ℕ
listeners_of kind c = or_else (lookup kind c.listeners) []

-- `on`; an absent set is created before the callback is added.
pub on : String → ℕ → Client → Client
unfolding set_add listeners_of
on kind cb c = record c { listeners = insert kind (set_add cb (listeners_of kind c)) c.listeners }

-- The function that `on` returns. It holds the set, which stays in the map.
pub off : String → ℕ → Client → Client
unfolding set_delete listeners_of
off kind cb c = record c {
  listeners = insert kind (set_delete cb (listeners_of kind c)) c.listeners;
}

module _ {E : Type 0} (kind : E → String) (parse : String → Option E) (raises : ℕ → E → Bool) where
  -- The calls of one `forEach`, up to a callback that throws; and whether one did.
  pub call_each : E → List ℕ → List (ℕ × E) × Bool
  call_each e [] = ([], false)
  call_each e (cb ∷ cbs) =
      let (calls, thrown) = call_each e cbs in
      if raises cb e then ((cb, e) ∷ [], true) else ((cb, e) ∷ calls, thrown)

  -- `_dispatch`: the callbacks of the event's type, then those of "*". An exception ends it.
  pub dispatch : Client → E → List (ℕ × E)
  unfolding call_each listeners_of
  dispatch c e =
      let (calls, thrown) = call_each e (listeners_of (kind e) c) in
      let (more, _) = call_each e (listeners_of "*" c) in if thrown then calls else calls ++ more

  -- `line ↦ try { this._dispatch(JSON.parse(line)) } catch {}`.
  pub handle_line : Client → String → List (ℕ × E)
  unfolding dispatch
  handle_line c line = elim (parse line) [ none ↦ [] | some e ↦ dispatch c e ]

  pub handle_lines : Client → List String → List (ℕ × E)
  unfolding handle_line
  handle_lines c [] = []
  handle_lines c (line ∷ lines) = handle_line c line ++ handle_lines c lines

-- `data.split('\n').filter(Boolean)`: the loop's second argument is the line read so far.
pub split_lines : String → String → List String
split_lines line String.[] = line ∷ []
split_lines line (String.◌∷◌ ch s) =
    let rest = split_lines "" s in
    let longer = split_lines (String.◌++◌ line (String.◌∷◌ ch String.[])) s in
    if code ch == 10 then line ∷ rest else longer

pub lines_of : String → List String
unfolding split_lines
lines_of text = filter (λ line. not (str_eq line "")) (split_lines "" text)

-- `_onMessage`.
pub on_message :
    {E : Type 0} (kind : E → String) (parse : String → Option E) (raises : ℕ → E → Bool)
    → Client
    → String
    → List (ℕ × E)
unfolding handle_lines lines_of
on_message kind parse raises c text = handle_lines kind parse raises c (lines_of text)
