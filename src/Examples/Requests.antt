-- ===== src/Examples/Requests.antt =====
-- Sealing and verifying the request of `Examples/Data`.
use mathlib.Core.List.{Permᴰ}
use vor_commander.Base.{◌≡◌, ◌↔◌, refl, List, [], ◌∷◌, ok, err}
use vor_commander.Protocol.{
  Capability, seal, verify, digest, normalized, validate_envelope, require_fields, expired,
}
use vor_commander.Base.Text.{is_blank, is_whitespace, codes}
use vor_commander.Protocol.Seal.{verify-seal, verify_iff, IsVerified}
use vor_commander.Protocol.Canonical.{digest-perm, none_left, one_more}
use vor_commander.Examples.Data.{hashing, write_envelope, write_request, read_files, write_files}

write_sealed : seal hashing write_envelope ≡ ok write_request
unfolding seal digest normalized validate_envelope require_fields is_blank is_whitespace
write_sealed = refl

verify-seal_example : verify hashing write_request 100000 ≡ err expired
verify-seal_example = verify-seal hashing write_envelope 100000 write_sealed

verify_iff_example : (verify hashing write_request 5 ≡ ok tt) ↔ IsVerified hashing write_request 5
verify_iff_example = verify_iff hashing write_request 5

-- the capabilities in the other order, and the constraints of the first in the other order
abbrev swapped : List Capability
swapped = record { name = "fs.read"; constraints = codes "a" ∷ codes "b" ∷ [] } ∷ write_files ∷ []

digest-perm_example :
    digest hashing write_envelope
    ≡ digest hashing (record write_envelope { requested_capabilities = swapped })
digest-perm_example =
    digest-perm hashing write_envelope (read_files ∷ write_files ∷ []) swapped
      (Permᴰ.swap refl refl)
      (one_more refl (Permᴰ.swap refl refl) (one_more refl (Permᴰ.cons refl Permᴰ.nil) none_left))
