-- ===== src/Records/Signing.antt =====
-- src/agent_control_plane/signing.py: signed replay bundles. The canonical JSON of a bundle and
-- HMAC-SHA256, as hexadecimal text, are parameters.
use cognous_agent_control_pl.Base.{
  String, Bool, true, false, ◌≡◌, refl, ap, ◌↔◌, not, ◌==◌, eq_iff, if◌then◌else◌,
}
use cognous_agent_control_pl.Records.Models.{ReplayBundle, SignedReplayBundle}

module _ (serialise : ReplayBundle → String) (hmac_sha256 : String → String → String) where
  unfoldable pub sign_payload : String → String → String
  sign_payload payload secret = hmac_sha256 secret payload

  -- `sign_replay_bundle`, with the identifier and the time that it draws.
  unfoldable pub sign_replay_bundle : String → String → ReplayBundle → String → SignedReplayBundle
  unfolding sign_payload
  sign_replay_bundle uuid clock b secret = record {
    signed_bundle_id = uuid;
    replay_bundle = b;
    signature = sign_payload (serialise b) secret;
    signature_algorithm = "HMAC-SHA256";
    signed_at = clock;
  }

  -- `compare_digest` compares the two texts.
  unfoldable pub verify_signed_replay_bundle : SignedReplayBundle → String → Bool
  unfolding sign_payload
  verify_signed_replay_bundle s secret =
      if not (s.signature_algorithm == "HMAC-SHA256")
      then false
      else s.signature == sign_payload (serialise s.replay_bundle) secret

  guarded : (b c : Bool) → (if not b then false else c) ≡ true → (b ≡ true) × (c ≡ true)
  guarded true c h = (refl, h)
  guarded false c h = cc

  both_hold : (b c : Bool) → b ≡ true → c ≡ true → (if not b then false else c) ≡ true
  both_hold b c h k = rw (h, k) refl

  -- The algorithm is named, and the signature is the HMAC of the bundle's text under the secret.
  pub record IsSignedBy (s : SignedReplayBundle) (secret : String) : Type 0 where
    pub algorithm : s.signature_algorithm ≡ "HMAC-SHA256"
    pub signature : s.signature ≡ hmac_sha256 secret (serialise s.replay_bundle)

  IsSignedBy-verify :
      (s : SignedReplayBundle) (secret : String)
      → verify_signed_replay_bundle s secret ≡ true
      → IsSignedBy s secret
  unfolding verify_signed_replay_bundle
  IsSignedBy-verify s secret h =
      let (algorithm, signature) = guarded _ _ h in
      record { algorithm = (eq_iff _ _).0 algorithm; signature = (eq_iff _ _).0 signature }

  verify-IsSignedBy :
      (s : SignedReplayBundle) (secret : String)
      → IsSignedBy s secret
      → verify_signed_replay_bundle s secret ≡ true
  unfolding verify_signed_replay_bundle
  verify-IsSignedBy s secret k =
      both_hold _ _ ((eq_iff _ _).1 k.algorithm) ((eq_iff _ _).1 k.signature)

  signed_by :
      (s : SignedReplayBundle) (secret : String)
      → s.signature_algorithm ≡ "HMAC-SHA256"
      → s.signature ≡ hmac_sha256 secret (serialise s.replay_bundle)
      → s ≡ sign_replay_bundle s.signed_bundle_id s.signed_at s.replay_bundle secret
  unfolding sign_replay_bundle
  signed_by s secret algorithm signature = rw (algorithm, signature)

  IsSignedBy-sign :
      (s : SignedReplayBundle) (secret : String)
      → s ≡ sign_replay_bundle s.signed_bundle_id s.signed_at s.replay_bundle secret
      → IsSignedBy s secret
  unfolding sign_replay_bundle
  IsSignedBy-sign s secret e = record {
    algorithm = ap (λ x. x.signature_algorithm) e;
    signature = ap (λ x. x.signature) e;
  }

  -- A signed bundle verifies under a secret exactly if it names HMAC-SHA256 and its signature is the
  -- HMAC of the text of its content under that secret; and these are exactly the bundles that signing
  -- under that secret gives, with their identifier, time and content.
  pub verify-sign :
      (s : SignedReplayBundle) (secret : String)
      → ((verify_signed_replay_bundle s secret ≡ true) ↔ IsSignedBy s secret)
        × (IsSignedBy s secret
            ↔ (s ≡ sign_replay_bundle s.signed_bundle_id s.signed_at s.replay_bundle secret))
  verify-sign s secret = (
    (IsSignedBy-verify s secret, verify-IsSignedBy s secret),
    (λ k. signed_by s secret k.algorithm k.signature, IsSignedBy-sign s secret),
  )
