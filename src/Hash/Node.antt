-- ===== src/Hash/Node.antt =====
-- A node at a known place of the table: its bucket is `length pre`, and the nodes `done` stand
-- before it in the chain.
use iftop_dotqoo.Prelude.{[], get_or-append, length, set-append, ◌++◌, ◌∷◌, ◌≡◌}
use iftop_dotqoo.Hash.{Chain, HashType, IsLawful, Table, hash_delete, hash_status_ok, write_rec}
use iftop_dotqoo.Hash.Chain.{Fresh, assign-append, unlink-append}

module _ {ℓ κ} {K : Type ℓ} {R : Type κ} (ops : HashType K) (law : IsLawful ops) where
  pub hash_delete-append :
      (pre bs : Table K R) (done c : Chain K R) (k : K) (r : R)
      → ops.hash k ≡ length pre
      → Fresh ops k done
      → hash_delete ops (pre ++ (done ++ (k, r) ∷ c) ∷ bs) k
        ≡ (pre ++ (done ++ c) ∷ bs, hash_status_ok)
  unfolding hash_delete
  hash_delete-append pre bs done c k r home fresh = rw home (
      rw (get_or-append pre bs (done ++ (k, r) ∷ c) [], unlink-append ops law k r done c fresh)
        (rw (set-append pre bs (done ++ (k, r) ∷ c) (done ++ c))))

  pub write_rec-append :
      (pre bs : Table K R) (done c : Chain K R) (k : K) (r r' : R)
      → ops.hash k ≡ length pre
      → Fresh ops k done
      → write_rec ops (pre ++ (done ++ (k, r) ∷ c) ∷ bs) k r' ≡ pre ++ (done ++ (k, r') ∷ c) ∷ bs
  unfolding write_rec
  write_rec-append pre bs done c k r r' home fresh = rw home (
      rw (get_or-append pre bs (done ++ (k, r) ∷ c) [], assign-append ops law k r r' done c fresh)
        (rw (set-append pre bs (done ++ (k, r) ∷ c) (done ++ (k, r') ∷ c))))
