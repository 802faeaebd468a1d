-- ===== src/Failover/Laws.antt =====
-- What auto-failover may delete, and why in the reconcile it deletes nothing.
use hyperbytedb_operator.Prelude.{
  ℕ, ◌+◌, ◌≤◌, ◌<◌, ◌≡◌, refl, ◌≢◌, ◌⊎◌, inl, inr, true, false, List, [], ◌∷◌, map, some, arith,
  All, Any, str_eq, eq_iff, ltb, leb, not, ◌||◌, Bool-cases, Failure, Result, ok, err,
}
use hyperbytedb_operator.Client.{HealthStatus}
use hyperbytedb_operator.Kube.{Pod}
use hyperbytedb_operator.Ordinals.{ordinals}
use hyperbytedb_operator.Members
use hyperbytedb_operator.Members.{
  MemberStatus, find_unhealthy_members, new_member, collect_member_statuses,
}
use hyperbytedb_operator.Failover.{
  FailoverSpec, World, Outcome, max_failovers, failover_timeout, fail_over, fail_over_first,
  handle_auto_failover,
}

-- The member may be failed over: unhealthy, not syncing, and unhealthy for the timeout.
abbrev pub IsOverdue : World → ℕ → MemberStatus → Type 0
IsOverdue w timeout m =
    (m.health ≡ false)
    × (m.state ≢ "Syncing")
    × (m.state ≢ "Joining")
    × (m.last_transition_time + timeout ≤ w.now)

-- Nothing was deleted and the count stands, or one pod was: that of an overdue member.
abbrev pub AtMostOne : World → ℕ → ℕ → List MemberStatus → Outcome → Type 0
AtMostOne w timeout count ms r =
    ((r.deleted ≡ []) × (r.failover_count ≡ count))
    ⊎ ((m : MemberStatus) × Any (λ x. x ≡ m) ms
        × IsOverdue w timeout m
        × (r.deleted ≡ m.ordinal ∷ [])
        × (r.failover_count ≤ count + 1))

module _ (w : World) (timeout count : ℕ) where
  AtMostOne-later :
      (m : MemberStatus) (ms : List MemberStatus) (r : Outcome)
      → AtMostOne w timeout count ms r
      → AtMostOne w timeout count (m ∷ ms) r
  AtMostOne-later m ms r (inl h) = inl h
  AtMostOne-later m ms r (inr (x, a, o, d, c)) = inr (x, inr a, o, d, c)

  fail_over-AtMostOne :
      (m : MemberStatus) (ms : List MemberStatus) (found : Result Pod) (later : Outcome)
      → IsOverdue w timeout m
      → AtMostOne w timeout count ms later
      → AtMostOne w timeout count (m ∷ ms) (fail_over w count m.ordinal found later)
  unfolding fail_over
  fail_over-AtMostOne m ms (err Failure.not_found) later o h = AtMostOne-later m ms later h
  fail_over-AtMostOne m ms (err _) later o h = inl (refl, refl)
  fail_over-AtMostOne m ms (ok pod) later o h = inr (m, inl refl, o, ground arith, ground arith)

  fail_over_first-AtMostOne :
      (ms : List MemberStatus)
      → All (λ m. m.health ≡ false) ms
      → AtMostOne w timeout count ms (fail_over_first w timeout count ms)
  unfolding fail_over_first
  fail_over_first-AtMostOne [] h = inl (refl, refl)
  fail_over_first-AtMostOne (m ∷ ms) h =
      let later = fail_over_first w timeout count ms in
      let ih = fail_over_first-AtMostOne ms h.1 in
      let skip = AtMostOne-later m ms later ih in
      elim (Bool-cases (str_eq m.state "Syncing" || str_eq m.state "Joining")) [
        | inl b ↦ rw b skip
        | inr b ↦ rw b (elim (Bool-cases (ltb w.now (m.last_transition_time + timeout))) [
          | inl c ↦ rw c skip
          | inr c ↦
              let overdue : IsOverdue w timeout m = (
                h.0,
                ground (arith, eq_iff m.state "Syncing"),
                ground (arith, eq_iff m.state "Joining"),
                ground arith,
              ) in
              rw c (fail_over-AtMostOne m ms (w.get_pod m.ordinal) later overdue ih)
        ])
      ]

  fail_over_first-fresh :
      (ms : List MemberStatus)
      → All (λ m. w.now < m.last_transition_time + timeout) ms
      → ((fail_over_first w timeout count ms).deleted ≡ [])
        × ((fail_over_first w timeout count ms).failover_count ≡ count)
  unfolding fail_over_first
  fail_over_first-fresh [] h = (refl, refl)
  fail_over_first-fresh (m ∷ ms) h = ground (arith, fail_over_first-fresh ms h.1)

find_unhealthy-All :
    (ms : List MemberStatus) → All (λ m. m.health ≡ false) (find_unhealthy_members ms)
unfolding find_unhealthy_members
find_unhealthy-All [] = tt
find_unhealthy-All (m ∷ ms) = elim (Bool-cases m.health) [
  | inl b ↦ simp b (find_unhealthy-All ms)
  | inr b ↦ simp b (refl, find_unhealthy-All ms)
]

Any-find_unhealthy :
    (P : MemberStatus → Type 0) (ms : List MemberStatus)
    → Any P (find_unhealthy_members ms)
    → Any P ms
unfolding find_unhealthy_members
Any-find_unhealthy P [] a = a
Any-find_unhealthy P (m ∷ ms) a = ground (arith, Any-find_unhealthy P ms)

All-find_unhealthy :
    (P : MemberStatus → Type 0) (ms : List MemberStatus)
    → All P ms
    → All P (find_unhealthy_members ms)
unfolding find_unhealthy_members
All-find_unhealthy P [] h = tt
All-find_unhealthy P (m ∷ ms) h = ground (arith, All-find_unhealthy P ms h.1)

unhealthy-AtMostOne :
    (w : World) (timeout count : ℕ) (members : List MemberStatus)
    → AtMostOne w timeout count members
        (fail_over_first w timeout count (find_unhealthy_members members))
unhealthy-AtMostOne w timeout count members =
    elim (fail_over_first-AtMostOne w timeout count (find_unhealthy_members members)
      (find_unhealthy-All members)) [
        | inl h ↦ inl h
        | inr (m, a, o, d, c) ↦ inr (m, Any-find_unhealthy (λ x. x ≡ m) members a, o, d, c)
      ]

-- Unless failover is on and fewer failovers are behind than the maximum, no pod is deleted and the
-- count stands. Else too, or one pod is deleted: that of a member of the list which is unhealthy,
-- not "Syncing" or "Joining", and whose transition time is at least the timeout ago; the count then
-- grows by at most one, so that it never passes the maximum.
pub handle_auto_failover-AtMostOne :
    (w : World) (spec : FailoverSpec) (count : ℕ) (members : List MemberStatus)
    → let r = handle_auto_failover w (some spec) count members in
      ((r.deleted ≡ []) × (r.failover_count ≡ count))
      ⊎ ((spec.enabled ≡ true)
          × (count < max_failovers spec)
          × AtMostOne w (failover_timeout spec) count members r)
unfolding handle_auto_failover
handle_auto_failover-AtMostOne w spec count members = elim (Bool-cases (not spec.enabled)) [
  | inl off ↦ rw off (inl (refl, refl))
  | inr on ↦ rw on (elim (Bool-cases (leb (max_failovers spec) count)) [
    | inl e ↦ rw e (inl (refl, refl))
    | inr e ↦ rw e (
        inr
          (ground arith, ground arith, unhealthy-AtMostOne w (failover_timeout spec) count members))
  ])
]

All-collected :
    (P : MemberStatus → Type 0) (w : Members.World) (is : List ℕ)
    → ((i : ℕ) → P (new_member i (w.clock i) (w.health i)))
    → All P (map (λ i. new_member i (w.clock i) (w.health i)) is)
All-collected P w [] h = tt
All-collected P w (i ∷ is) h = (h i, All-collected P w is h)

fresh_member :
    (i now : ℕ) (r : Result HealthStatus) → (new_member i now r).last_transition_time ≡ now
unfolding new_member
fresh_member i now (ok hs) = refl
fresh_member i now (err e) = refl

-- In a reconcile the members' transition times are the times at which the same pass asked them. So
-- as long as the pass reaches the failover step within the timeout of each of them, no pod is ever
-- deleted and the failover count never moves, however long a member has been down.
pub handle_auto_failover-fresh :
    (w : World) (mw : Members.World) (spec : FailoverSpec) (count replicas : ℕ)
    → ((i : ℕ) → w.now < mw.clock i + failover_timeout spec)
    → ((handle_auto_failover w (some spec) count (collect_member_statuses mw replicas)).deleted
        ≡ [])
      × ((handle_auto_failover w
            (some spec)
            count
            (collect_member_statuses mw replicas)).failover_count
          ≡ count)
unfolding handle_auto_failover collect_member_statuses
handle_auto_failover-fresh w mw spec count replicas soon =
    let timeout = failover_timeout spec in
    let Fresh = λ (m : MemberStatus). w.now < m.last_transition_time + timeout in
    let ms = map (λ i. new_member i (mw.clock i) (mw.health i)) (ordinals replicas) in
    let all =
      All-collected Fresh mw (ordinals replicas)
        (λ i. omega (arith, fresh_member i (mw.clock i) (mw.health i), soon i)) in
    ground (
      arith,
      fail_over_first-fresh w timeout count (find_unhealthy_members ms)
          (All-find_unhealthy Fresh ms all),
    )
