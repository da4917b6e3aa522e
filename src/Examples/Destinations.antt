-- ===== src/Examples/Destinations.antt =====
-- The theorems of the destination, run on one refund.
use cognous_agent_control_pl.Base.{
  ◌≤◌, true, false, some, none, [], ◌∷◌, ◌≡◌, refl, get, arith, put,
}
use cognous_agent_control_pl.Base.Outcome.{Exn, ok, raise, runtime_error}
use cognous_agent_control_pl.Bounded.Models.{text}
use cognous_agent_control_pl.Bounded.Destination.{
  CommittedState, Effect, DestinationState, readable, empty_destination, ApplyCall, used, commit,
  apply,
}
use cognous_agent_control_pl.Bounded.Destination.Laws.{
  IsConsistent, FileIsConsistent, committed, apply_all, apply-IsConsistent, commit-IsConsistent,
  empty-IsConsistent, effects_of,
}
use cognous_agent_control_pl.Bounded.Destination.Once.{
  apply_all-cap, effect_at, Landed, apply-retry,
}

abbrev pub refund_apply : ApplyCall
refund_apply = record {
  effect_id = "effect:proposal:case-7/grant-1/r1";
  grant_id = "grant-1";
  max_effects = 1;
  target = "case-7";
  amount = 20;
  unit = "USD";
  payload = ("note", text "late delivery") ∷ [];
  lose_ack = true;
  partial = false;
}

-- Another effect under the same grant.
abbrev other_apply : ApplyCall
other_apply = record refund_apply { effect_id = "effect-2"; lose_ack = false }

-- The same effect again, under another grant.
abbrev retry_apply : ApplyCall
retry_apply = record refund_apply { grant_id = "grant-2"; amount = 30; lose_ack = false }

abbrev pub refund_effect : Effect
refund_effect = record {
  effect_id = "effect:proposal:case-7/grant-1/r1";
  grant_id = "grant-1";
  target = "case-7";
  amount = 20;
  unit = "USD";
  payload = ("note", text "late delivery") ∷ [];
  state = CommittedState.applied;
}

abbrev pub refunded : DestinationState
refunded = record {
  effects = ("effect:proposal:case-7/grant-1/r1", refund_effect) ∷ [];
  grant_effect_counts = ("grant-1", 1) ∷ [];
}

refund-commits : commit refund_apply empty_destination ≡ refunded
unfolding commit put get
refund-commits = refl

nothing_there : get refund_apply.effect_id empty_destination.effects ≡ none
unfolding get
nothing_there = refl

pub refunded-IsConsistent : IsConsistent refunded
refunded-IsConsistent =
    rw refund-commits at
      (commit-IsConsistent refund_apply empty_destination nothing_there empty-IsConsistent)

apply-IsConsistent_example : FileIsConsistent (apply refund_apply (readable refunded)).1
apply-IsConsistent_example =
    apply-IsConsistent refund_apply (readable refunded) refunded-IsConsistent

capped : 1 ≤ 1
capped = omega arith

one_effect : committed "grant-1" (readable refunded) ≤ 1
unfolding committed effects_of
one_effect = omega arith

apply_all-cap_example :
    committed "grant-1" (apply_all (refund_apply ∷ other_apply ∷ []) (readable refunded)) ≤ 1
apply_all-cap_example =
    apply_all-cap "grant-1" 1 (refund_apply ∷ other_apply ∷ []) (readable refunded)
      refunded-IsConsistent (λ e. capped, (λ e. capped, tt)) one_effect

effect_there :
    effect_at "effect:proposal:case-7/grant-1/r1" (readable refunded) ≡ some refund_effect
unfolding effect_at get
effect_there = refl

-- The acknowledgement of the first call is lost.
Landed-lost : Landed (apply refund_apply (readable empty_destination)).0
unfolding apply get
Landed-lost = refl

apply-retry_example :
    (e : Effect) × (effect_at refund_apply.effect_id
        (apply refund_apply (readable empty_destination)).1
      ≡ some e)
    × (apply retry_apply (apply refund_apply (readable empty_destination)).1 ≡ (
      ok (record { duplicate = true; effect = e }),
      (apply refund_apply (readable empty_destination)).1,
    ))
apply-retry_example = apply-retry refund_apply retry_apply empty_destination refl Landed-lost

abbrev exhausted : Exn
exhausted = record { kind = runtime_error; message = "cumulative grant max_effects exhausted" }

other-raises : (apply other_apply (readable refunded)).0 ≡ raise exhausted
unfolding apply get used
other-raises = refl
