-- ===== src/Publisher/Send/Bursts.antt =====
-- What `handleSend` sends, counts and remembers.
use nats_ui.Prelude.{
  ℕ, zero, suc, ◌+◌, ◌≤◌, ◌<◌, String, str_eq, ◌≡◌, refl, ◌∙◌, ap, Bool, false, Option, some, inl,
  inr, List, [], ◌∷◌, map, length, take, Dict, ◌==◌, if◌then◌else◌, ◌⊎◌, arith, Bool-cases, ==_iff,
}
use nats_ui.Types.Publishing.{PublishRequest, PublishResult}
use nats_ui.Store.Views.{PublisherTab}
use nats_ui.Publisher.Placeholders.{trim}
use nats_ui.Publisher.Send.{
  Answer, published, failed, Runtime, HistoryEntry, Session, Progress, no_progress, total_of,
  build_req, count_answer, burst_from, remember, send_one, send_burst, handle_send, burst_entry,
}

-- The numbers from `i` on.
abbrev pub numbers : ℕ → ℕ → List ℕ
numbers zero i = []
numbers (suc k) i = i ∷ numbers k (i + 1)

count_answer-sum :
    (a : Answer) (i : ℕ) (p : Progress)
    → ((count_answer a i p).ok + (count_answer a i p).fail ≡ suc (p.ok + p.fail))
      × ((count_answer a i p).sent ≡ i)
unfolding count_answer
count_answer-sum (published r) i p = (omega arith, refl)
count_answer-sum (failed e) i p = (omega arith, refl)

-- The requests of a burst are those of the messages `i`, `i + 1`, … without a gap; each of them is
-- counted once, as sent or as failed; and without a stop the burst sends all.
pub burst_from-requests :
    (answer : ℕ → Answer) (stopped : ℕ → Bool) (build : ℕ → PublishRequest) (left i : ℕ)
    (p : Progress)
    → (k : ℕ) × (k ≤ left)
      × ((burst_from answer stopped build left i p).1 ≡ map build (numbers k i))
      × ((burst_from answer stopped build left i p).0.ok
            + (burst_from answer stopped build left i p).0.fail
          ≡ k + (p.ok + p.fail))
      × (((j : ℕ) → stopped j ≡ false) → k ≡ left)
unfolding burst_from
burst_from-requests answer stopped build zero i p = (0, omega arith, refl, omega arith, λ h. refl)
burst_from-requests answer stopped build (suc left) i p =
    let p' : Progress = count_answer (answer i) i p in
    let (k, low, requests, sum, all) = burst_from-requests answer stopped build left (i + 1) p' in
    elim (Bool-cases (stopped i)) [
      | inl e ↦ rw e (
        0,
        omega arith,
        refl,
        omega arith,
        λ h. absurd (let never : stopped i ≡ false = h i in cc),
      )
      | inr e ↦ rw e (
        suc k,
        omega arith,
        ap (build i ∷◌) requests,
        omega (arith, sum, (count_answer-sum (answer i) i p).0),
        λ h. ap suc (all h),
      )
    ]

-- `n` messages are what the form asks for by the number `count`: this number, where 0 stands for 1,
-- and 10000 where it is greater.
pub record IsAsked (count n : ℕ) : Type 0 where
  pub as_typed : 1 ≤ count → count ≤ 10000 → n ≡ count
  pub at_zero : count ≡ 0 → n ≡ 1
  pub above : 10000 < count → n ≡ 10000

total_of-IsAsked : (count : ℕ) → IsAsked count (total_of count)
unfolding total_of
total_of-IsAsked count = record {
  as_typed = λ low high. ground (arith, low, high);
  at_zero = λ e. ground (arith, e);
  above = λ h. ground (arith, h);
}

-- What `handleSend` checks before it sends.
abbrev pub Sends : String → PublisherTab → Session → Type 0
Sends cluster_id tab s =
    (str_eq cluster_id "" ≡ false)
    × (str_eq (trim tab.subject) "" ≡ false)
    × (s.loading ≡ false)
    × (s.bursting ≡ false)

length-take_limit : {A : Type 0} (n : ℕ) (xs : List A) → length (take n xs) ≤ n
length-take_limit zero xs = ground arith
length-take_limit (suc n) [] = omega arith
length-take_limit (suc n) (x ∷ xs) = omega (arith, length-take_limit n xs)

-- One entry, and the numbers of the requests.
abbrev pub IsOutcome :
    Runtime → Dict String → PublisherTab → ℕ → Session → Session × List PublishRequest → Type 0
IsOutcome rt vars tab k s (s', rs) =
    (rs ≡ map (build_req rt vars tab) (numbers k 1))
    × ((s'.loading ≡ false) × (s'.bursting ≡ false))
    × ((entry : HistoryEntry) × (entry.id ≡ s.history_id + 1)
        × (entry.tab_id ≡ tab.id)
        × (s'.history ≡ take 100 (entry ∷ s.history)))

Answer-cases :
    (a : Answer)
    → ((r : PublishResult) × (a ≡ published r)) ⊎ ((m : Option String) × (a ≡ failed m))
Answer-cases (published r) = inl (r, refl)
Answer-cases (failed m) = inr (m, refl)

send_one-IsOutcome :
    (rt : Runtime) (vars : Dict String) (tab : PublisherTab) (s : Session)
    → s.bursting ≡ false
    → IsOutcome rt vars tab 1 s (send_one rt vars tab s)
unfolding send_one remember
send_one-IsOutcome rt vars tab s e = elim (Answer-cases (rt.answer 1)) [
  | inl (r, a) ↦ rw (a, send_one) (refl, (refl, e), (_, refl, refl, refl))
  | inr (m, a) ↦ rw (a, send_one) (refl, (refl, e), (_, refl, refl, refl))
]

send_burst-IsOutcome :
    (rt : Runtime) (vars : Dict String) (tab : PublisherTab) (total : ℕ) (s : Session)
    → s.loading ≡ false
    → ((j : ℕ) → rt.stopped j ≡ false)
    → IsOutcome rt vars tab total s (send_burst rt vars tab total s)
unfolding send_burst remember burst_entry
send_burst-IsOutcome rt vars tab total s e h =
    let (k, low, requests, sum, all) =
      burst_from-requests rt.answer rt.stopped (build_req rt vars tab) total 1 no_progress in
    (
      requests ∙ ap (λ n. map (build_req rt vars tab) (numbers n 1)) (all h),
      (e, refl),
      (_, refl, refl, refl),
    )

handle_send-go :
    (rt : Runtime) (cluster_id : String) (vars : Dict String) (tab : PublisherTab) (count : ℕ)
    (s : Session)
    → Sends cluster_id tab s
    → handle_send rt cluster_id vars (some tab) count s ≡ (
        if total_of count == 1
        then send_one rt vars tab s
        else send_burst rt vars tab (total_of count) s)
unfolding handle_send
handle_send-go rt cluster_id vars tab count s (a, b, c, d) = rw (handle_send, a, b, c, d) refl

-- Where a cluster is connected, the subject is not blank, nothing is being sent and the user does
-- not stop the burst, `handleSend` sends as many messages as the form asks for, one for 0 and 10000
-- for more than that, numbered from 1 on, whatever the backend answers; afterwards nothing is being
-- sent, and the history has one new entry, in front, for the tab, and the newest 99 of the old ones.
pub handle_send-IsOutcome :
    (rt : Runtime) (cluster_id : String) (vars : Dict String) (tab : PublisherTab) (count : ℕ)
    (s : Session)
    → Sends cluster_id tab s
    → ((j : ℕ) → rt.stopped j ≡ false)
    → (n : ℕ) × IsAsked count n
      × IsOutcome rt vars tab n s (handle_send rt cluster_id vars (some tab) count s)
handle_send-IsOutcome rt cluster_id vars tab count s go h = (
  total_of count,
  total_of-IsAsked count,
  rw (handle_send-go rt cluster_id vars tab count s go) (elim (Bool-cases (total_of count == 1)) [
    | inl e ↦
        let one : total_of count ≡ 1 = (==_iff (total_of count) 1).0 e in
        rw (e, one) (send_one-IsOutcome rt vars tab s go.3)
    | inr e ↦ rw e (send_burst-IsOutcome rt vars tab (total_of count) s go.2 h)
  ]),
)
