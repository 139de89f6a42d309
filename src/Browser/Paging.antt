-- ===== src/Browser/Paging.antt =====
-- Going to the next pages and back.
use nats_ui.Prelude.{
  ℕ, zero, suc, ◌+◌, ◌≤◌, ◌<◌, String, str_eq, ◌≡◌, refl, sym, ◌∙◌, ap, false, Option, none, some,
  or_else, inl, inr, List, [], ◌∷◌, ◌++◌, length, last?, last?-append_one, ltb, ◌==◌, if◌then◌else◌,
  arith, Bool-cases, Option-cases,
}
use mathlib.Core.Path.{ap₂}
use nats_ui.Types.Messages.{StoredMessage}
use nats_ui.Browser.{
  Browser, page_size, effective_start, query_of, handle_next_page, but_last, handle_prev_page,
}

but_last-append_one : (xs : List ℕ) (x : ℕ) → but_last (xs ++ x ∷ []) ≡ xs
unfolding but_last
but_last-append_one [] x = refl
but_last-append_one (y ∷ []) x = refl
but_last-append_one (y ∷ z ∷ xs) x = ap (y ∷◌) (but_last-append_one (z ∷ xs) x)

-- A number above zero is shown again as it was; zero stands for the start of the form.
abbrev pub IsPositive : Browser → Type 0
IsPositive s = (n : ℕ) → s.next_seq ≡ some n → 0 < n

abbrev start_of : (String → ℕ) → Option ℕ → String → Option ℕ
start_of parse_int (some n) start = some n
start_of parse_int none start = if str_eq start "" then none else some (parse_int start)

effective_start-start_of :
    (parse_int : String → ℕ) (s : Browser)
    → effective_start parse_int s ≡ start_of parse_int s.next_seq s.start_seq
unfolding effective_start
effective_start-start_of parse_int s = elim (Option-cases s.next_seq) [
  | inl e ↦ rw (e, effective_start) refl
  | inr (n, e) ↦ rw (e, effective_start) refl
]

-- What is put back in `nextSeq` for a number of the history.
abbrev put_back : ℕ → Option ℕ
put_back prev = if prev == 0 then none else some prev

start_of-put_back :
    (parse_int : String → ℕ) (next : Option ℕ) (start : String)
    → ((n : ℕ) → next ≡ some n → 0 < n)
    → start_of parse_int (put_back (or_else (start_of parse_int next start) 0)) start
      ≡ start_of parse_int next start
start_of-put_back parse_int (some n) start pos = let above : 0 < n = pos n refl in ground arith
start_of-put_back parse_int none start pos = elim (Bool-cases (str_eq start "")) [
  | inl e ↦ rw (e, e) refl
  | inr e ↦
      rw e (elim (Bool-cases (parse_int start == 0)) [ inl z ↦ rw (z, e) refl | inr z ↦ rw z refl ])
]

-- The same page of the same query, with the same pages before it.
abbrev pub SamePage : (String → ℕ) → Browser → Browser → Type 0
SamePage parse_int t s =
    (t.history ≡ s.history)
    × (t.start_seq ≡ s.start_seq)
    × (t.selected_stream ≡ s.selected_stream)
    × (t.subject_filter ≡ s.subject_filter)
    × (effective_start parse_int t ≡ effective_start parse_int s)

last?-cons :
    (m : StoredMessage) (ms : List StoredMessage) → (l : StoredMessage) × (last? (m ∷ ms) ≡ some l)
last?-cons m [] = (m, refl)
last?-cons m (n ∷ ms) = last?-cons n ms

handle_next_page-full :
    (parse_int : String → ℕ) (messages : List StoredMessage) (s : Browser)
    → page_size ≤ length messages
    → (n : ℕ) × (handle_next_page parse_int (some messages) s ≡ record s {
      history = s.history ++ or_else (effective_start parse_int s) 0 ∷ [];
      next_seq = some (n + 1);
      expanded_seq = none;
      fetch_key = s.fetch_key + 1;
    })
unfolding handle_next_page
handle_next_page-full parse_int [] s h = absurd (omega arith)
handle_next_page-full parse_int (m ∷ ms) s h =
    let (l, e) = last?-cons m ms in
    let full : ltb (length (m ∷ ms)) page_size ≡ false = ground arith in
    rw (e, full, handle_next_page) (l.seq, refl)

handle_prev_page-append :
    (t : Browser) (xs : List ℕ) (x : ℕ)
    → t.history ≡ xs ++ x ∷ []
    → handle_prev_page t ≡ record t {
      history = xs;
      next_seq = put_back x;
      expanded_seq = none;
      fetch_key = t.fetch_key + 1;
    }
unfolding handle_prev_page
handle_prev_page-append t xs x e =
    let last : last? t.history ≡ some x = ap last? e ∙ last?-append_one xs x in
    let rest : but_last t.history ≡ xs = ap but_last e ∙ but_last-append_one xs x in
    rw (last, rest, handle_prev_page) refl

-- Going back undoes going forward, also from a state that shows the same page.
prev-SamePage :
    (parse_int : String → ℕ) (messages : List StoredMessage) (s t : Browser)
    → page_size ≤ length messages
    → IsPositive s
    → SamePage parse_int t (handle_next_page parse_int (some messages) s)
    → SamePage parse_int (handle_prev_page t) s
prev-SamePage parse_int messages s t full pos (history, start, stream, subject, eff) =
    let (n, e) = handle_next_page-full parse_int messages s full in
    let x : ℕ = or_else (effective_start parse_int s) 0 in
    let back = handle_prev_page-append t s.history x (history ∙ ap (λ b. b.history) e) in
    let start_eq : t.start_seq ≡ s.start_seq = start ∙ ap (λ b. b.start_seq) e in
    let eff_s = effective_start-start_of parse_int s in
    let restored : effective_start parse_int (handle_prev_page t) ≡ effective_start parse_int s =
      ap (effective_start parse_int) back
      ∙ effective_start-start_of parse_int (record t {
        history = s.history;
        next_seq = put_back x;
        expanded_seq = none;
        fetch_key = t.fetch_key + 1;
      })
      ∙ ap₂ (λ o b. start_of parse_int (put_back (or_else o 0)) b) eff_s start_eq
      ∙ start_of-put_back parse_int s.next_seq s.start_seq pos
      ∙ sym eff_s in
    (
      ap (λ b. b.history) back,
      ap (λ b. b.start_seq) back ∙ start_eq,
      ap (λ b. b.selected_stream) back ∙ stream ∙ ap (λ b. b.selected_stream) e,
      ap (λ b. b.subject_filter) back ∙ subject ∙ ap (λ b. b.subject_filter) e,
      restored,
    )

-- Several pages forward, and back.
abbrev pub forward : (String → ℕ) → List (List StoredMessage) → Browser → Browser
forward parse_int [] s = s
forward parse_int (ms ∷ rest) s = forward parse_int rest (handle_next_page parse_int (some ms) s)

abbrev pub backward : ℕ → Browser → Browser
backward zero s = s
backward (suc n) s = handle_prev_page (backward n s)

-- Every page is a full one, after which there is a next page.
abbrev pub AreFull : List (List StoredMessage) → Type 0
AreFull [] = Unit
AreFull (ms ∷ rest) = (page_size ≤ length ms) × AreFull rest

next-IsPositive :
    (parse_int : String → ℕ) (messages : List StoredMessage) (s : Browser)
    → page_size ≤ length messages
    → IsPositive (handle_next_page parse_int (some messages) s)
next-IsPositive parse_int messages s full n e =
    let (k, shape) = handle_next_page-full parse_int messages s full in
    let same : some (k + 1) ≡ some n = sym (ap (λ b. b.next_seq) shape) ∙ e in ground arith

forward-SamePage :
    (parse_int : String → ℕ) (pages : List (List StoredMessage)) (s : Browser)
    → AreFull pages
    → IsPositive s
    → SamePage parse_int (backward (length pages) (forward parse_int pages s)) s
forward-SamePage parse_int [] s full pos = (refl, refl, refl, refl, refl)
forward-SamePage parse_int (ms ∷ rest) s (full, others) pos =
    let s' : Browser = handle_next_page parse_int (some ms) s in
    prev-SamePage parse_int ms s (backward (length rest) (forward parse_int rest s')) full pos
      (forward-SamePage parse_int rest s' others (next-IsPositive parse_int ms s full))

-- Where no page is asked for by the number zero: after any number of full pages forward, and as many pages back, the browser asks for the page
-- that it started from, with the same pages before it.
pub query_of-backward :
    (parse_int : String → ℕ) (pages : List (List StoredMessage)) (s : Browser)
    → AreFull pages
    → IsPositive s
    → (query_of parse_int (backward (length pages) (forward parse_int pages s))
        ≡ query_of parse_int s)
      × ((backward (length pages) (forward parse_int pages s)).history ≡ s.history)
unfolding query_of
query_of-backward parse_int pages s full pos =
    let (history, start, stream, subject, eff) = forward-SamePage parse_int pages s full pos in
    (
      (λ i. record {
        stream = stream i;
        start_seq = eff i;
        limit = page_size;
        subject = if str_eq (subject i) "" then none else some (subject i);
      }),
      history,
    )
