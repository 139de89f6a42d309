-- ===== src/Socket/Listeners/Tests.antt =====
-- Subscribers and frames, on a client with one subscriber.
use nats_ui.Prelude.{ℕ, String, ◌≡◌, refl, Bool, false, Option, some, [], ◌∷◌}
use nats_ui.Socket.{Client, new_client}
use nats_ui.Socket.Listeners.{lines_of}

abbrev subscribed_client : Client
subscribed_client = record new_client { listeners = ("topology", 1 ∷ []) ∷ [] }

-- Events are texts that are their own kind, no text fails to parse, and no callback throws.
abbrev kind_of : String → String
kind_of e = e

abbrev parsed : String → Option String
parsed line = some line

abbrev never : ℕ → String → Bool
never cb e = false

lines_tests : (lines_of "a\n\nb" ≡ "a" ∷ "b" ∷ [])
unfolding lines_of
lines_tests = refl
