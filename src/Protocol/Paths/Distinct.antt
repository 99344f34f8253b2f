-- ===== src/Protocol/Paths/Distinct.antt =====
-- protocol/paths.py: the objects of a game have different paths, by the letter that follows the game.
use civ4_turn_relay.Prelude.{
  ◌++◌, codes, ℕ, ◌≡◌, ◌≢◌, refl, ◌∷◌, arith, some, Text, append-ne, sym, ◌∙◌,
}
use civ4_turn_relay.Protocol.Paths.{
  six_digits, take, under, resolve, manifest, upload_lock_dir, upload_lock_json, temporary_manifest,
  temporary_upload, temporary_history, accepted_save_relative, history_manifest_relative,
}

-- The path is `{game}/{letter}…`.
abbrev pub Begins : Text → ℕ → Text → Type 0
Begins g letter p = (rest : Text) × (p ≡ under g (letter ∷ rest))

-- Paths of one game that begin with different letters differ.
pub Begins-ne : (g : Text) (c d : ℕ) (p q : Text) → c ≢ d → Begins g c p → Begins g d q → p ≢ q
unfolding under
Begins-ne g c d p q n (a, ep) (b, eq) e =
    append-ne g _ _ (λ (h : 47 ∷ c ∷ a ≡ 47 ∷ d ∷ b). n (ground (arith, h))) (sym ep ∙ (e ∙ eq))

module _ (g : Text) where
  pub manifest-Begins : Begins g b'm' (manifest g)
  unfolding manifest
  manifest-Begins = (_, refl)

  pub upload_lock_dir-Begins : Begins g b'l' (upload_lock_dir g)
  unfolding upload_lock_dir
  upload_lock_dir-Begins = (_, refl)

  pub upload_lock_json-Begins : Begins g b'l' (upload_lock_json g)
  unfolding upload_lock_json
  upload_lock_json-Begins = (_, refl)

  pub temporary_manifest-Begins : (op p : Text) → temporary_manifest g op ≡ some p → Begins g b't' p
  unfolding temporary_manifest resolve
  temporary_manifest-Begins op p h =
      (codes "emporary/manifest-" ++ (op ++ codes ".json"), ground arith)

  pub temporary_upload-Begins :
      (op ext p : Text) → temporary_upload g op ext ≡ some p → Begins g b't' p
  unfolding temporary_upload resolve
  temporary_upload-Begins op ext p h =
      (codes "emporary/" ++ (op ++ (codes ".upload" ++ ext)), ground arith)

  pub temporary_history-Begins : (op p : Text) → temporary_history g op ≡ some p → Begins g b't' p
  unfolding temporary_history resolve
  temporary_history-Begins op p h =
      (codes "emporary/history-" ++ (op ++ codes ".json"), ground arith)

  pub accepted_save-Begins :
      (n : ℕ) (sha ext r p : Text)
      → accepted_save_relative n sha ext ≡ some r
      → resolve g r ≡ some p
      → Begins g b's' p
  unfolding accepted_save_relative resolve
  accepted_save-Begins n sha ext r p h k =
      (codes "aves/" ++ (six_digits n ++ (codes "_" ++ (take 12 sha ++ ext))), ground arith)

  pub history-Begins :
      (n : ℕ) (sha r p : Text)
      → history_manifest_relative n sha ≡ some r
      → resolve g r ≡ some p
      → Begins g b'h' p
  unfolding history_manifest_relative resolve
  history-Begins n sha r p h k = (
    codes "istory/manifest-" ++ (six_digits n ++ (codes "-" ++ (take 12 sha ++ codes ".json"))),
    ground arith,
  )
