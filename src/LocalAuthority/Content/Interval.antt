-- ===== src/LocalAuthority/Content/Interval.antt =====
-- The validity interval of a claim.
use cognous_agent_control_pl.Base.{
  or_false_iff, ℕ, ◌≤◌, ◌<◌, String, false, Option, none, some, ◌≡◌, sym, ap, ◌∙◌, leb, arith,
}
use cognous_agent_control_pl.Base.Outcome.{ok, bind-eq-ok}
use cognous_agent_control_pl.Bounded.Documents.{Platform, Grant, parse}
use cognous_agent_control_pl.LocalAuthority.Models.{ClaimDocument}
use cognous_agent_control_pl.LocalAuthority.Projections.Sound.{refuse_if-ok, same_ok}
use cognous_agent_control_pl.LocalAuthority.Content.{
  IssueCall, truthy, utc_optional, later_of, earlier_of, interval_of,
}

module _ (p : Platform) (commit : ClaimDocument → String) where
  -- The interval lies in that of the grant and, where they are given, in those of the proposal and of
  -- the caller; it is not empty and not over.
  pub record IsInterval (c : IssueCall) (now : ℕ) (g : Grant) (start end : ℕ) : Type 0 where
    pub granted_from : (t : ℕ) × (parse p g.not_before ≡ ok t) × (t ≤ start)
    pub granted_until : (t : ℕ) × (parse p g.expires_at ≡ ok t) × (end ≤ t)
    pub proposed_from :
        (s : String)
        → truthy c.proposal.not_before ≡ some s
        → (t : ℕ) × (parse p s ≡ ok t) × (t ≤ start)
    pub proposed_until :
        (s : String)
        → truthy c.proposal.expires_at ≡ some s
        → (t : ℕ) × (parse p s ≡ ok t) × (end ≤ t)
    pub asked_until :
        (s : String) → truthy c.expires_at ≡ some s → (t : ℕ) × (parse p s ≡ ok t) × (end ≤ t)
    pub not_empty : start < end
    pub not_over : now < end

  utc_optional-ok :
      (o : Option String) (t : Option ℕ) (s : String)
      → utc_optional p commit o ≡ ok t
      → o ≡ some s
      → (u : ℕ) × (parse p s ≡ ok u) × (t ≡ some u)
  unfolding utc_optional
  utc_optional-ok none t s h e = cc
  utc_optional-ok (some x) t s h e =
      let same : x ≡ s = some_same e in
      let (u, read, done) = bind-eq-ok (parse p x) _ h in
      (u, ap (parse p) (sym same) ∙ read, same_ok done)
    where
      some_same : {x y : String} → some x ≡ some y → x ≡ y
      some_same h = cc

  later_le : (t : ℕ) (o : Option ℕ) → t ≤ later_of p commit t o
  later_le t none = omega arith
  later_le t (some u) = omega arith

  later_other : (t u : ℕ) (o : Option ℕ) → o ≡ some u → u ≤ later_of p commit t o
  later_other t u none h = cc
  later_other t u (some v) h = ground arith

  earlier_le : (t : ℕ) (o : Option ℕ) → earlier_of p commit t o ≤ t
  earlier_le t none = omega arith
  earlier_le t (some u) = omega arith

  earlier_other : (t u : ℕ) (o : Option ℕ) → o ≡ some u → earlier_of p commit t o ≤ u
  earlier_other t u none h = cc
  earlier_other t u (some v) h = ground arith

  before_end : (end t : ℕ) → leb end t ≡ false → t < end
  before_end end t h = ground arith

  pub interval_of-IsInterval :
      (c : IssueCall) (now : ℕ) (g : Grant) (start end : ℕ)
      → interval_of p commit c now g ≡ ok (start, end)
      → IsInterval c now g start end
  unfolding interval_of
  interval_of-IsInterval c now g start end h =
      let (a, granted_from, rest) = bind-eq-ok (parse p g.not_before) _ h in
      let (b, proposed_from, rest) =
        bind-eq-ok (utc_optional p commit (truthy c.proposal.not_before)) _ rest in
      let (d, granted_until, rest) = bind-eq-ok (parse p g.expires_at) _ rest in
      let (e, proposed_until, rest) =
        bind-eq-ok (utc_optional p commit (truthy c.proposal.expires_at)) _ rest in
      let (f, asked_until, rest) =
        bind-eq-ok (utc_optional p commit (truthy c.expires_at)) _ rest in
      let (usable, done) = refuse_if-ok _ _ _ rest in
      let (not_empty, not_over) = or_false_iff _ _ usable in
      let lower = later_of p commit a b in
      let middle = earlier_of p commit d e in
      let upper = earlier_of p commit middle f in
      let same_start : start ≡ lower = ap (λ x. x.0) (same_ok done) in
      let same_end : end ≡ upper = ap (λ x. x.1) (same_ok done) in
      rw (same_start, same_end)
        (record {
          granted_from = (a, granted_from, later_le a b);
          granted_until = (d, granted_until, omega (arith, earlier_le d e, earlier_le middle f));
          proposed_from = λ s given.
              let (u, read, found) = utc_optional-ok _ b s proposed_from given in
              (u, read, later_other a u b found);
          proposed_until = λ s given.
              let (u, read, found) = utc_optional-ok _ e s proposed_until given in
              (u, read, omega (arith, earlier_other d u e found, earlier_le middle f));
          asked_until = λ s given.
              let (u, read, found) = utc_optional-ok _ f s asked_until given in
              (u, read, earlier_other middle u f found);
          not_empty = before_end upper lower not_empty;
          not_over = before_end upper now not_over;
        })
