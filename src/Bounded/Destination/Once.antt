-- ===== src/Bounded/Destination/Once.antt =====
-- `LocalRefundDestination.apply`: an identity commits at most once, and a grant stays below the
-- limit that its calls carry.
use cognous_agent_control_pl.Base.{
  ℕ, ◌≤◌, String, true, Option, none, some, List, [], ◌∷◌, ◌≡◌, ◌≢◌, refl, arith, get, get-put,
  eq_iff, All,
}
use cognous_agent_control_pl.Base.Outcome.{Exn, runtime_error, timeout_error, Result, ok, raise}
use cognous_agent_control_pl.Bounded.Destination.{
  Effect, DestinationState, DestinationFile, readable, unreadable, ApplyCall, ApplyAck, effect_of,
  commit, apply, acknowledge,
}
use cognous_agent_control_pl.Bounded.Destination.Laws.{
  FileIsConsistent, effects_of-commit, seen, full, room, cases, apply_seen, apply_full, apply_room,
  acknowledge-file, apply-IsConsistent, committed, apply_all,
}

-- What a call adds to a grant, which is nothing once the grant is at the limit of the call.
apply-committed :
    (c : ApplyCall) (g : String) (m : ℕ) (f : DestinationFile)
    → FileIsConsistent f
    → (c.grant_id ≡ g → c.max_effects ≤ m)
    → committed g f ≤ m
    → committed g (apply c f).1 ≤ m
unfolding committed
apply-committed c g m (unreadable e) v cap h = unfold apply in h
apply-committed c g m (readable s) v cap h = elim (cases c s) [
  | seen e q ↦ rw (apply_seen c s e q) h
  | full q r ↦ rw (apply_full c s q r) h
  | room q r ↦
      rw (apply_room c s q r, acknowledge-file c (readable (commit c s)))
        (rw (effects_of-commit c s g q)
          (ground (arith, eq_iff g c.grant_id, v.counted c.grant_id, v.counted g)))
]

-- A call of the grant has a limit of at most `m`.
abbrev pub IsCapped : String → ℕ → ApplyCall → Type 0
IsCapped g m c = c.grant_id ≡ g → c.max_effects ≤ m

-- From a consistent file with at most `m` effects of a grant, if every call for the grant carries a
-- limit of at most `m`, no sequence of calls, retried, timed out or refused in any way, leads to more
-- than `m` committed effects of the grant.
pub apply_all-cap :
    (g : String) (m : ℕ) (cs : List ApplyCall) (f : DestinationFile)
    → FileIsConsistent f
    → All (IsCapped g m) cs
    → committed g f ≤ m
    → committed g (apply_all cs f) ≤ m
unfolding apply_all
apply_all-cap g m [] f v cap h = h
apply_all-cap g m (c ∷ cs) f v cap h =
    apply_all-cap g m cs (apply c f).1 (apply-IsConsistent c f v) cap.1
      (apply-committed c g m f v cap.0 h)

-- The effect that a file holds for an identity.
unfoldable pub effect_at : String → DestinationFile → Option Effect
effect_at k (readable s) = get k s.effects
effect_at k (unreadable e) = none

effect_at-apply :
    (c : ApplyCall) (k : String) (f : DestinationFile) (e : Effect)
    → effect_at k f ≡ some e
    → effect_at k (apply c f).1 ≡ some e
unfolding effect_at
effect_at-apply c k (unreadable x) e h = unfold apply in h
effect_at-apply c k (readable s) e h = elim (cases c s) [
  | seen x q ↦ rw (apply_seen c s x q) h
  | full q r ↦ rw (apply_full c s q r) h
  | room q r ↦
      rw (apply_room c s q r, acknowledge-file c (readable (commit c s)))
        (unfold commit in
          rw (get-put c.effect_id k (effect_of c) s.effects) (ground (arith, eq_iff k c.effect_id)))
]

-- A committed effect is never overwritten, moved or dropped by later calls.
effect_at-apply_all :
    (k : String) (cs : List ApplyCall) (f : DestinationFile) (e : Effect)
    → effect_at k f ≡ some e
    → effect_at k (apply_all cs f) ≡ some e
unfolding apply_all
effect_at-apply_all k [] f e h = h
effect_at-apply_all k (c ∷ cs) f e h =
    effect_at-apply_all k cs (apply c f).1 e (effect_at-apply c k f e h)

-- The effect has been committed: the call returned, or its acknowledgement was lost.
abbrev pub Landed : Result ApplyAck → Type 0
Landed (ok _) = Unit
Landed (raise e) = e.kind ≡ timeout_error

not_landed : runtime_error ≡ timeout_error → ⊥
not_landed h = cc

lost_kind :
    (c : ApplyCall) (f : DestinationFile) (e : Exn)
    → (acknowledge c f).0 ≡ raise e
    → e.kind ≡ timeout_error
unfolding acknowledge
lost_kind c f e h = ground arith

get-commit :
    (c : ApplyCall) (s : DestinationState)
    → get c.effect_id (commit c s).effects ≡ some (effect_of c)
unfolding commit
get-commit c s =
    rw (get-put c.effect_id c.effect_id (effect_of c) s.effects)
      (ground (arith, eq_iff c.effect_id c.effect_id))

-- Once a call has landed, a retry under the same identity, with whatever grant, limit, target,
-- amount or payload, is answered as a duplicate with the effect first committed, and it changes
-- nothing.
pub apply-retry :
    (c c' : ApplyCall) (s : DestinationState)
    → c'.effect_id ≡ c.effect_id
    → Landed (apply c (readable s)).0
    → (e : Effect) × (effect_at c.effect_id (apply c (readable s)).1 ≡ some e)
      × (apply c' (apply c (readable s)).1
          ≡ (ok (record { duplicate = true; effect = e }), (apply c (readable s)).1))
unfolding effect_at
apply-retry c c' s same landed = elim (cases c s) [
  | seen e q ↦
      (e, rw (apply_seen c s e q) q, rw (apply_seen c s e q) (apply_seen c' s e (rw same q)))
  | full q r ↦ absurd (not_landed (rw (apply_full c s q r) at landed))
  | room q r ↦ (
    effect_of c,
    rw (apply_room c s q r, acknowledge-file c (readable (commit c s))) (get-commit c s),
    rw (apply_room c s q r, acknowledge-file c (readable (commit c s)))
        (apply_seen c' (commit c s) (effect_of c) (rw same (get-commit c s))),
  )
]

-- A call that raises anything but a timeout has changed nothing.
apply-refused :
    (c : ApplyCall) (f : DestinationFile) (e : Exn)
    → (apply c f).0 ≡ raise e
    → e.kind ≢ timeout_error
    → (apply c f).1 ≡ f
apply-refused c (unreadable x) e h other = unfold apply in refl
apply-refused c (readable s) e h other = elim (cases c s) [
  | seen x q ↦ rw (apply_seen c s x q)
  | full q r ↦ rw (apply_full c s q r)
  | room q r ↦ absurd (other (lost_kind c (readable (commit c s)) e (rw (apply_room c s q r) at h)))
]
