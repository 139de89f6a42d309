-- ===== src/Socket/Backoff.antt =====
-- The delays between attempts to reconnect.
use nats_ui.Prelude.{
  ℕ, zero, suc, ◌+◌, ◌-◌, ◌*◌, ◌^◌, ◌≤◌, ◌≡◌, refl, ◌∙◌, ap, false, List, [], ◌∷◌, ◌++◌, length,
  arith,
}
use nats_ui.Socket.{
  Browser, units, set_timeout, Client, clear_timer, first_delay, max_reconnect_delay, next_delay,
  on_timer, on_close, connect,
}

-- The delay after `n` attempts that all fail.
abbrev pub backoff : ℕ → ℕ
backoff zero = first_delay
backoff (suc n) = next_delay (backoff n)

next_delay_max : next_delay max_reconnect_delay ≡ max_reconnect_delay
unfolding next_delay
next_delay_max = refl

backoff_nine : backoff 9 ≡ max_reconnect_delay
unfolding next_delay
backoff_nine = refl

backoff_above : (k : ℕ) → backoff (9 + k) ≡ max_reconnect_delay
backoff_above zero = backoff_nine
backoff_above (suc k) =
    let step : 9 + suc k ≡ suc (9 + k) = omega arith in rw (step, backoff_above k) next_delay_max

backoff_low : (n : ℕ) → n ≤ 8 → backoff n * 2 ^ n ≡ first_delay * 3 ^ n
unfolding next_delay
backoff_low zero h = refl
backoff_low (suc zero) h = refl
backoff_low (suc (suc zero)) h = refl
backoff_low (suc (suc (suc zero))) h = refl
backoff_low (suc (suc (suc (suc zero)))) h = refl
backoff_low (suc (suc (suc (suc (suc zero))))) h = refl
backoff_low (suc (suc (suc (suc (suc (suc zero)))))) h = refl
backoff_low (suc (suc (suc (suc (suc (suc (suc zero))))))) h = refl
backoff_low (suc (suc (suc (suc (suc (suc (suc (suc zero)))))))) h = refl
backoff_low (suc (suc (suc (suc (suc (suc (suc (suc (suc k))))))))) h = absurd (omega arith)

backoff_lem :
    (n : ℕ)
    → (n ≤ 8 → backoff n * 2 ^ n ≡ first_delay * 3 ^ n) × (9 ≤ n → backoff n ≡ max_reconnect_delay)
backoff_lem n = (
  backoff_low n,
  λ h. let split : 9 + (n - 9) ≡ n = omega arith in rw split at (backoff_above (n - 9)),
)

connect-state :
    (b : Browser) (c : Client)
    → ((connect b c).0.is_manual_close ≡ false) × ((connect b c).0.reconnect_delay ≡ first_delay)
unfolding connect
connect-state b c = ground arith

on_close-effects :
    (b : Browser) (c : Client)
    → c.is_manual_close ≡ false
    → (on_close b c).1 ≡ clear_timer c.reconnect_timer ++ set_timeout c.reconnect_delay ∷ []
unfolding on_close
on_close-effects b c m = rw m refl

-- A connection that closes, and the attempt that the timer then makes; the browser may answer
-- differently each time.
abbrev pub failure : Browser × Browser → Client → Client
failure (b, b') c = (on_timer b' (on_close b c).0).0

abbrev pub failures : List (Browser × Browser) → Client → Client
failures [] c = c
failures (bs ∷ rest) c = failure bs (failures rest c)

failure-state :
    (b b' : Browser) (c : Client)
    → c.is_manual_close ≡ false
    → ((failure (b, b') c).is_manual_close ≡ false)
      × ((failure (b, b') c).reconnect_delay ≡ next_delay c.reconnect_delay)
unfolding on_timer on_close
failure-state b b' c m = ground arith

failures-state :
    (rest : List (Browser × Browser)) (c : Client)
    → c.is_manual_close ≡ false
    → c.reconnect_delay ≡ first_delay
    → ((failures rest c).is_manual_close ≡ false)
      × ((failures rest c).reconnect_delay ≡ backoff (length rest))
failures-state [] c m d = (m, d)
failures-state ((b, b') ∷ rest) c m d =
    let (manual, delay) = failures-state rest c m d in
    let (manual', delay') = failure-state b b' (failures rest c) manual in
    (manual', delay' ∙ ap next_delay delay)

-- After `connect`, and `n` failed attempts, whatever the browser answers, the next loss of the
-- connection clears the old timer and starts one. Its delay is 1000 ms times 1.5 ^ n, exactly, for up
-- to eight failures, and 30000 ms from the ninth on.
pub on_close-failures :
    (b₀ b : Browser) (rest : List (Browser × Browser)) (c : Client)
    → let lost = failures rest (connect b₀ c).0 in
      let n = length rest in
      (d : ℕ) × ((on_close b lost).1 ≡ clear_timer lost.reconnect_timer ++ set_timeout d ∷ [])
      × (n ≤ 8 → d * 2 ^ n ≡ 1000 * units * 3 ^ n)
      × (9 ≤ n → d ≡ 30000 * units)
on_close-failures b₀ b rest c =
    let c' : Client = (connect b₀ c).0 in
    let (manual, delay) = failures-state rest c' (connect-state b₀ c).0 (connect-state b₀ c).1 in
    (
      backoff (length rest),
      rw (on_close-effects b (failures rest c') manual, delay) refl,
      (backoff_lem (length rest)).0,
      (backoff_lem (length rest)).1,
    )
