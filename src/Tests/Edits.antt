-- ===== src/Tests/Edits.antt =====
-- The theorems on edits, at the sample document.
use bio_did_registry.Base.{◌≡◌, ◌+◌, refl, [], ◌∷◌, ◌++◌, length, replicate, arith}
use bio_did_registry.Error.{ok}
use bio_did_registry.Bytes.{Bytes, to_le_bytes}
use bio_did_registry.State.Consts.{initial_space, tombstone_space}
use bio_did_registry.State.Edits.{stamp}
use bio_did_registry.Document.{Service, encode, encode_service, layout}
use bio_did_registry.Document.Stamp.{stamp-encode}
use bio_did_registry.Document.Updates.{touched}
use bio_did_registry.Document.Lifecycle.{initial, tombstone, write_initial-encode, entomb-encode}
use bio_did_registry.Document.Removal.{with_services, service_start, remove_service-encode}
use bio_did_registry.Document.Services.{replace_service-encode}
use bio_did_registry.Document.Controllers.{
  encode_controllers, with_controllers, replace_sections-encode,
}
use bio_did_registry.Instructions.Initialize.{write_initial}
use bio_did_registry.Instructions.Deactivate.{entomb}
use bio_did_registry.Instructions.RemoveVerificationMethod.{remove_entry}
use bio_did_registry.Instructions.UpdateService.{replace_entry}
use bio_did_registry.Instructions.SetControllers.{replace_sections}
use bio_did_registry.Tests.Samples.{
  sample, sample-IsDocument, sample_service, service_name, owner, guardian, web_controller,
}

write_initial-encode_example :
    write_initial 254 owner owner 1000 (replicate initial_space 0)
    ≡ ok (encode (initial 254 owner owner 1000))
write_initial-encode_example =
    write_initial-encode 254 owner owner 1000 (replicate initial_space 0) refl refl refl

entomb-encode_example :
    (rest : Bytes) × (entomb (encode sample) ≡ ok (encode (tombstone sample) ++ rest))
    × (length (encode (tombstone sample)) ≡ tombstone_space)
entomb-encode_example = entomb-encode sample sample-IsDocument

stamp-encode_example :
    stamp 2000 (encode sample ++ (0 ∷ 0 ∷ []))
    ≡ ok (encode (touched sample 2000) ++ (0 ∷ 0 ∷ []), 4)
stamp-encode_example = stamp-encode sample 2000 (0 ∷ 0 ∷ []) (omega arith) sample-IsDocument

remove_service-encode_example :
    (g : Bytes) × (length g ≡ length (encode_service sample_service))
    × (remove_entry
          (service_start sample [])
          (service_start sample [] + length (encode_service sample_service))
          (layout sample).end
          (layout sample).svc_count_pos
          1
          (encode sample)
        ≡ ok (encode (with_services sample []) ++ g))
remove_service-encode_example = remove_service-encode sample [] sample_service [] sample-IsDocument

-- The service at another endpoint.
abbrev moved_service : Service
moved_service = record {
  fragment = service_name;
  service_type = b'T' ∷ [];
  endpoint = b'b' ∷ b'c' ∷ [];
}

replace_service-encode_example :
    (left : Bytes) × (length left + length (encode_service moved_service)
      ≡ length (encode_service sample_service) + 1)
    × (replace_entry
          (service_start sample [])
          (service_start sample [] + length (encode_service sample_service))
          (layout sample).end
          moved_service
          (encode sample ++ (0 ∷ []))
        ≡ ok (encode (with_services sample (moved_service ∷ [])) ++ left))
unfolding to_le_bytes
replace_service-encode_example =
    replace_service-encode sample [] sample_service moved_service [] (0 ∷ []) sample-IsDocument
      (omega arith)

replace_sections-encode_example :
    (left : Bytes) × (length left + length (encode_controllers [] (web_controller ∷ []))
      ≡ length (encode_controllers (guardian ∷ []) (web_controller ∷ [])) + 0)
    × (replace_sections
          (layout sample).vm_count_pos
          (layout sample).end
          (length (encode_controllers [] (web_controller ∷ [])))
          (encode_controllers [] (web_controller ∷ []) ++ [])
          (encode sample ++ [])
        ≡ ok (encode (with_controllers sample [] (web_controller ∷ [])) ++ left))
unfolding to_le_bytes
replace_sections-encode_example =
    replace_sections-encode sample [] (web_controller ∷ []) [] [] sample-IsDocument (omega arith)
