-- ===== src/Sharedmem/Clients/Progress.antt =====
-- Someone can always go on: the threads never all wait for one another.
use message_transport.Common.{
  ℕ, ◌≡◌, ◌≢◌, ◌⊎◌, inl, inr, refl, sym, ap, ◌∙◌, Bool, true, false, List, [], ◌∷◌, ◌++◌, map,
  Bool-cases, ℕ_discrete, arith,
}
use message_transport.Sharedmem.Clients.Phases.{
  Phase, rest, listening, signalled, joining, reading, left, blocked, woken, checked, writing,
  finishing, waiting_inside, woken_inside, resizing, waiting_outside, woken_outside, managing,
  elsewhere, failed, Monitor, Notice, hear, Move, join, start_reading, stop_reading,
  stop_reading_fails, leave, leave_fails, enter_again, stop_writing, stop_writing_fails, signal,
  go_out, resize_again, resized, manage_again, managed, come_back, come_back_fails, System, Step,
  Reachable,
}
use message_transport.Sharedmem.Clients.Totals.{
  in_block, in_manager, holds_block, holds_manager, as_count, total, total-member,
}
use message_transport.Sharedmem.Clients.Counting.{fails, Agrees, Reachable-Agrees}
use message_transport.Sharedmem.Clients.Waiting.{at_block, at_manager, Awaited, Reachable-Awaited}

-- Outside, or waiting for data.
unfoldable pub is_idle : Phase → Bool
is_idle rest = true
is_idle listening = true
is_idle p = false

abbrev Enabled : Monitor → Phase → Type 0
Enabled m p = (n : Notice) × (m' : Monitor) × (q : Phase) × Move m p n m' q × (is_idle p ≡ false)

owner-Enabled : (m : Monitor) (p : Phase) → holds_manager p ≢ 0 → Enabled m p
unfolding holds_manager is_idle
owner-Enabled m (resizing w) h = (_, _, _, resized w, refl)
owner-Enabled m managing h = (_, _, _, managed, refl)
owner-Enabled m rest h = absurd (h refl)
owner-Enabled m listening h = absurd (h refl)
owner-Enabled m signalled h = absurd (h refl)
owner-Enabled m joining h = absurd (h refl)
owner-Enabled m reading h = absurd (h refl)
owner-Enabled m left h = absurd (h refl)
owner-Enabled m blocked h = absurd (h refl)
owner-Enabled m woken h = absurd (h refl)
owner-Enabled m (checked w) h = absurd (h refl)
owner-Enabled m (writing w) h = absurd (h refl)
owner-Enabled m (finishing w) h = absurd (h refl)
owner-Enabled m (waiting_inside w) h = absurd (h refl)
owner-Enabled m (woken_inside w) h = absurd (h refl)
owner-Enabled m waiting_outside h = absurd (h refl)
owner-Enabled m woken_outside h = absurd (h refl)
owner-Enabled m elsewhere h = absurd (h refl)
owner-Enabled m failed h = absurd (h refl)

-- With both mutexes free, everyone who waits for no client; with the manager's mutex free, also
-- those who need no other.
free-Enabled :
    (m : Monitor) (p : Phase)
    → m.global_locked ≡ false
    → (m.locked ≡ false) ⊎ (holds_block p ≢ 0) ⊎ (in_manager p ≢ 0)
    → is_idle p ≡ false
    → at_block p ≡ 0
    → at_manager p ≡ 0
    → p ≢ failed
    → Enabled m p
unfolding holds_block in_manager is_idle at_block at_manager
free-Enabled m rest g o busy b w f = absurd (cc (busy))
free-Enabled m listening g o busy b w f = absurd (cc (busy))
free-Enabled m signalled g o busy b w f = (_, _, _, join (ground arith), refl)
free-Enabled m joining g o busy b w f = (_, _, _, start_reading g, refl)
free-Enabled m reading g o busy b w f = elim (ℕ_discrete m.global_clients 0) [
  | yes e ↦ (_, _, _, stop_reading_fails g e, refl)
  | no e ↦ (_, _, _, stop_reading g e, refl)
]
free-Enabled m left g o busy b w f = elim (ℕ_discrete m.num_clients 0) [
  | yes e ↦ (_, _, _, leave_fails (ground arith) e, refl)
  | no e ↦ (_, _, _, leave (ground arith) e, refl)
]
free-Enabled m blocked g o busy b w f = absurd (omega (arith, b))
free-Enabled m woken g o busy b w f = (_, _, _, enter_again (ground arith), refl)
free-Enabled m (checked v) g o busy b w f = (_, _, _, go_out v, refl)
free-Enabled m (writing v) g o busy b w f = elim (ℕ_discrete m.global_clients 0) [
  | yes e ↦ (_, _, _, stop_writing_fails v g e, refl)
  | no e ↦ (_, _, _, stop_writing v g e, refl)
]
free-Enabled m (finishing v) g o busy b w f = (_, _, _, signal v, refl)
free-Enabled m (waiting_inside v) g o busy b w f = absurd (omega (arith, w))
free-Enabled m (woken_inside v) g o busy b w f = (_, _, _, resize_again v g, refl)
free-Enabled m (resizing v) g o busy b w f = (_, _, _, resized v, refl)
free-Enabled m waiting_outside g o busy b w f = absurd (omega (arith, w))
free-Enabled m woken_outside g o busy b w f = (_, _, _, manage_again g, refl)
free-Enabled m managing g o busy b w f = (_, _, _, managed, refl)
free-Enabled m elsewhere g o busy b w f = elim (ℕ_discrete m.global_clients 0) [
  | yes e ↦ (_, _, _, come_back_fails g e, refl)
  | no e ↦ (_, _, _, come_back g e, refl)
]
free-Enabled m failed g o busy b w f = absurd (f refl)

-- Where a count is not zero, someone is counted.
Counted : (Phase → ℕ) → List Phase → Type 0
Counted f ps = (before after : List Phase) × (p : Phase) × (ps ≡ before ++ (p ∷ after)) × (f p ≢ 0)

total-Counted : (f : Phase → ℕ) (ps : List Phase) → total f ps ≢ 0 → Counted f ps
unfolding total Counted
total-Counted f [] some_one = absurd (some_one refl)
total-Counted f (p ∷ ps) some_one = elim (ℕ_discrete (f p) 0) [
  | no counts ↦ ([], ps, p, refl, counts)
  | yes e ↦
      let (before, after, q, split, counts) =
        total-Counted f ps (λ none_left. some_one (omega (arith, e, none_left))) in
      (p ∷ before, after, q, ap (λ (qs : List Phase). p ∷ qs) split, counts)
]

-- A step of a thread that is not idle.
abbrev pub Proceeds : System → Type 0
Proceeds s = (t : System) × (step : Step s t) × (is_idle step.mover ≡ false)

Enabled-Proceeds :
    (s : System) (before after : List Phase) (p : Phase)
    → s.threads ≡ before ++ (p ∷ after)
    → Enabled s.monitor p
    → Proceeds s
Enabled-Proceeds s before after p here (n, m', q, move, busy) = (
  record { monitor = m'; threads = map (hear n) before ++ (q ∷ map (hear n) after) },
  record {
    before = before;
    after = after;
    mover = p;
    moved = q;
    notice = n;
    move = move;
    was = here;
    is = refl;
  },
  busy,
)

module _ (s : System) (good : Agrees s) (none_failed : total fails s.threads ≡ 0)
    (awaited : Awaited s) where
  not_failed :
      (before after : List Phase) (p : Phase) → s.threads ≡ before ++ (p ∷ after) → p ≢ failed
  unfolding fails
  not_failed before after p here e =
      let one : fails p ≡ 1 = rw e refl in
      omega (arith, one, total-member fails before after p, ap (total fails) here, none_failed)

  -- Someone who is registered with the manager can go on once its mutex is free.
  manager_client-Proceeds :
      s.monitor.global_locked ≡ false → s.monitor.global_clients ≢ 0 → Proceeds s
  unfolding Counted in_manager is_idle at_block at_manager
  manager_client-Proceeds free some_client =
      let (before, after, p, here, counts) =
        total-Counted in_manager s.threads (λ e. some_client (sym good.managers ∙ e)) in
      Enabled-Proceeds s before after p here (
        free-Enabled s.monitor p free (inr (inr counts)) (ground arith) (ground arith)
          (ground arith) (not_failed before after p here))

  -- Someone who waits for the manager's clients is waited for no longer than they need.
  waiting-Proceeds :
      (before after : List Phase) (p : Phase)
      → s.threads ≡ before ++ (p ∷ after)
      → s.monitor.global_locked ≡ false
      → at_manager p ≢ 0
      → Proceeds s
  waiting-Proceeds before after p here free waits = manager_client-Proceeds free (
      awaited.manager (λ e.
        waits
          (omega (arith, total-member at_manager before after p, ap (total at_manager) here, e))))

  -- With the manager's mutex free, a holder of the block's mutex or a client of the block.
  holder-Proceeds :
      (f : Phase → ℕ)
      → s.monitor.global_locked ≡ false
      → total f s.threads ≢ 0
      → ((p : Phase)
          → f p ≢ 0
          → ((s.monitor.locked ≡ false) ⊎ (holds_block p ≢ 0))
            × (is_idle p ≡ false)
            × (at_block p ≡ 0))
      → Proceeds s
  unfolding Counted
  holder-Proceeds f free some_one ready =
      let (before, after, p, here, counts) = total-Counted f s.threads some_one in
      let (may, busy, clear) = ready p counts in
      elim (ℕ_discrete (at_manager p) 0) [
        | no waits ↦ waiting-Proceeds before after p here free waits
        | yes e ↦ Enabled-Proceeds s before after p here (
            free-Enabled s.monitor p free (elim may [ inl a ↦ inl a | inr a ↦ inr (inl a) ]) busy
              clear e (not_failed before after p here))
      ]

  holds_block-ready :
      (p : Phase)
      → holds_block p ≢ 0
      → ((s.monitor.locked ≡ false) ⊎ (holds_block p ≢ 0)) × (is_idle p ≡ false) × (at_block p ≡ 0)
  unfolding holds_block is_idle at_block
  holds_block-ready p h = (inr h, ground arith, ground arith)

  in_block-ready :
      s.monitor.locked ≡ false
      → (p : Phase) → in_block p ≢ 0
      → ((s.monitor.locked ≡ false) ⊎ (holds_block p ≢ 0)) × (is_idle p ≡ false) × (at_block p ≡ 0)
  unfolding in_block is_idle at_block
  in_block-ready unlocked p h = (inl unlocked, ground arith, ground arith)

  busy-Proceeds :
      (before after : List Phase) (p : Phase)
      → s.threads ≡ before ++ (p ∷ after)
      → is_idle p ≡ false
      → Proceeds s
  unfolding as_count Counted
  busy-Proceeds before after p here busy = elim (Bool-cases s.monitor.global_locked) [
    | inl owned ↦
        let (b, a, q, there, counts) =
          total-Counted holds_manager s.threads
            (λ e. ground (arith, e, owned, good.manager_lock)) in
        Enabled-Proceeds s b a q there (owner-Enabled s.monitor q counts)
    | inr free ↦ elim (Bool-cases s.monitor.locked) [
      | inl locked ↦
          holder-Proceeds holds_block free (λ e. ground (arith, e, locked, good.lock))
            holds_block-ready
      | inr unlocked ↦ elim (ℕ_discrete (at_manager p) 0) [
        | no waits ↦ waiting-Proceeds before after p here free waits
        | yes clear ↦ elim (ℕ_discrete (at_block p) 0) [
          | no waits ↦
              holder-Proceeds in_block free
                (λ e.
                  awaited.block
                    (λ none_waits. waits (
                      omega (
                        arith,
                        total-member at_block before after p,
                        ap (total at_block) here,
                        none_waits,
                      )))
                    (sym good.clients ∙ e))
                (in_block-ready unlocked)
          | yes out ↦ Enabled-Proceeds s before after p here (
              free-Enabled s.monitor p free (inl unlocked) busy out clear
                (not_failed before after p here))
        ]
      ]
    ]
  ]

-- After any steps of any number of threads: as long as one of them is not idle, which is to be outside
-- or to wait for data, one that is not idle can take a step, so the threads never all wait for one
-- another.
pub Reachable-Proceeds :
    {n : ℕ} {s : System} (before after : List Phase) (p : Phase)
    → Reachable n s
    → s.threads ≡ before ++ (p ∷ after)
    → is_idle p ≡ false
    → Proceeds s
Reachable-Proceeds {n} {s} before after p run here busy =
    let (good, none_failed) = Reachable-Agrees run in
    busy-Proceeds s good none_failed (Reachable-Awaited run) before after p here busy
