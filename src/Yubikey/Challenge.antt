-- ===== src/Yubikey/Challenge.antt =====
-- challenge.go: ChallengeData and the checks of parseChallengeData on it.
use restore_safe.Base.{
  Bool, Bytes, codes, false, if◌then◌else◌, leb, length, none, some, text_eq, ℕ, ◌&&◌, ◌++◌, ◌==◌,
  ◌||◌,
}
use restore_safe.Cryptox.Platform.{Platform}
use restore_safe.Text.{decimal}

pub record ChallengeData : Type 0 where
  -- An int; negative versions are not represented.
  pub version : ℕ
  pub no_password : Bool
  pub cred_id : Bytes
  pub salt : Bytes
  pub sum : Bytes

abbrev pub fido2_cred_id_max : ℕ
fido2_cred_id_max = 4096

abbrev pub fido2_salt_size : ℕ
fido2_salt_size = 32

module _ (platform : Platform) where
  open platform use {sha256, base64_decode, base64_encode}

  -- challengeChecksum
  unfoldable pub challenge_checksum : ChallengeData → Bytes
  challenge_checksum cd = base64_encode (
      sha256 (
        codes "v="
        ++ (decimal cd.version
            ++ (codes ";nopw="
                ++ ((if cd.no_password then codes "true" else codes "false")
                    ++ (codes ";cred_id=" ++ (cd.cred_id ++ (codes ";salt=" ++ cd.salt))))))))

  abbrev decoded_within : ℕ → ℕ → Bytes → Bool
  decoded_within lo hi text = elim (base64_decode text) [
    | none ↦ false
    | some bs ↦ leb lo (length bs) && leb (length bs) hi
  ]

  -- parseChallengeData, after the JSON text was decoded.
  unfoldable pub challenge_ok : ChallengeData → Bool
  challenge_ok cd =
      decoded_within 1 fido2_cred_id_max cd.cred_id
      && decoded_within fido2_salt_size fido2_salt_size cd.salt
      && (length cd.sum == 0 || text_eq cd.sum (challenge_checksum cd))
