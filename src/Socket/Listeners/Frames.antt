-- ===== src/Socket/Listeners/Frames.antt =====
-- Frames that carry several events: `_onMessage` takes a frame apart at its line feeds.
use Prim.Native.Char.{code}
use nats_ui.Prelude.{
  ℕ, ◌==◌, String, ◌^+◌, ◌≡◌, refl, sym, ap, Option, List, [], ◌∷◌, ◌++◌, append_assoc,
  filter-append, Bool, Bool-cases, inl, inr,
}
use text.Mathlib.TextLemmas.{nil-append, cons-append}
use nats_ui.Socket.{Client}
use nats_ui.Socket.Listeners.{handle_line, handle_lines, split_lines, lines_of, on_message}

abbrev line_feed : String
line_feed = "\n"

split_lines-join :
    (line a b : String)
    → split_lines line (a ^+ (line_feed ^+ b)) ≡ split_lines line a ++ split_lines "" b
unfolding split_lines
split_lines-join line String.[] b = rw (nil-append, cons-append, nil-append) refl
split_lines-join line (String.◌∷◌ ch a) b = rw cons-append (elim (Bool-cases (code ch == 10)) [
  | inl e ↦ rw e (ap (line ∷◌) (split_lines-join "" a b))
  | inr e ↦ rw e (split_lines-join (line ^+ String.◌∷◌ ch String.[]) a b)
])

module _ {E : Type 0} (kind : E → String) (parse : String → Option E) (raises : ℕ → E → Bool)
    (c : Client) where
  handle_lines-append :
      (xs ys : List String)
      → handle_lines kind parse raises c (xs ++ ys)
        ≡ handle_lines kind parse raises c xs ++ handle_lines kind parse raises c ys
  unfolding handle_lines
  handle_lines-append [] ys = refl
  handle_lines-append (x ∷ xs) ys = rw (handle_lines-append xs ys) (
      sym (
        append_assoc (handle_line kind parse raises c x) (handle_lines kind parse raises c xs)
          (handle_lines kind parse raises c ys)))

  -- A frame that joins two texts by a line feed is handled as the first text and then the second,
  -- also where a line of the first does not parse or a callback throws on it.
  pub on_message-join :
      (a b : String)
      → on_message kind parse raises c (a ^+ (line_feed ^+ b))
        ≡ on_message kind parse raises c a ++ on_message kind parse raises c b
  unfolding on_message lines_of
  on_message-join a b = rw (split_lines-join "" a b, filter-append) (handle_lines-append _ _)
