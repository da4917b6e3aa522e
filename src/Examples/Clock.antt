-- ===== src/Examples/Clock.antt =====
-- A concrete platform: an instant prints as "T" and that many marks, and the commitment of a
-- document names its kind and what tells the documents of the examples apart.
use cognous_agent_control_pl.Base.{
  ℕ, zero, suc, String, ◌≡◌, refl, ap, fstring, Option, some, none, [], ◌∷◌, is_blank,
}
use cognous_agent_control_pl.Bounded.Documents.{Platform, Committed, Timestamp, PrintsTime}

unfoldable pub marks : ℕ → String
marks zero = ""
marks (suc n) = String.◌∷◌ "x" (marks n)

unfoldable pub count : String → ℕ
count String.[] = 0
count (String.◌∷◌ c s) = suc (count s)

unfoldable pub print : ℕ → String
unfolding marks
print t = String.◌∷◌ "T" (marks t)

unfoldable pub read : String → Timestamp
unfolding count
read String.[] = Timestamp.malformed
read (String.◌∷◌ c s) = Timestamp.aware (count s)

text_of : Option String → String
text_of none = "none"
text_of (some s) = s

unfoldable pub digest : Committed → String
unfolding text_of fstring
digest (Committed.proposal q) = fstring ("proposal:" ∷ q.target ∷ [])
digest (Committed.effect k g r) = fstring ("effect:" ∷ k ∷ "/" ∷ text_of g ∷ "/" ∷ text_of r ∷ [])
digest (Committed.mapping i v aliases) = fstring ("mapping:" ∷ i ∷ "/" ∷ v ∷ [])
digest (Committed.manifest m) = "manifest"
digest (Committed.payload d) = "payload"
digest (Committed.requirement x) = fstring ("requirement:" ∷ x.requirement_id ∷ [])
digest (Committed.policy_versions vs) = "policies"

abbrev pub unary : Platform
unary = record { commitment = digest; fromisoformat = read; isoformat = print }

count-marks : (t : ℕ) → count (marks t) ≡ t
unfolding count marks
count-marks zero = refl
count-marks (suc n) = ap suc (count-marks n)

pub unary-PrintsTime : PrintsTime unary
unfolding print read is_blank
unary-PrintsTime = record { reads = λ t. ap Timestamp.aware (count-marks t); visible = λ t. refl }
