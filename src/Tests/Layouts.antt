-- ===== src/Tests/Layouts.antt =====
-- The theorems on the layout and on the lookups, at the sample document.
use bio_did_registry.Base.{◌≡◌, All, some, ◌↔◌, refl, true, bytes_eq}
use bio_did_registry.Error.{
  ok, err, from_did_error, fragment_already_in_use, DidError, code, from_code,
}
use bio_did_registry.Error.Codes.{from_code_iff}
use bio_did_registry.Bytes.{IsByte, to_le_bytes}
use bio_did_registry.State.Sections.{parse}
use bio_did_registry.State.View.{
  vms, services, is_authority, authority_count, is_native_controller, require_fragment_free,
}
use bio_did_registry.Document.{Document, IsDocument, encode, encode_vm, encode_service, layout}
use bio_did_registry.Document.Decode.{parse-encode}
use bio_did_registry.Document.Sound.{parse_sound}
use bio_did_registry.Document.Entries.{doc_view, refs, vm_ref, svc_ref, vms-encode, services-encode}
use bio_did_registry.Document.Lookups.{
  is_authority-encode, authority_count-encode, is_native_controller-encode,
  require_fragment_free-encode,
}
use bio_did_registry.Program.{
  deactivate, find_instruction, instructions, discriminator, find-discriminator,
}
use bio_did_registry.Tests.Samples.{sample, sample-IsDocument, guardian, second_name, all-IsByte}

sample-bytes : All IsByte (encode sample)
unfolding encode to_le_bytes
sample-bytes = all-IsByte (encode sample) refl

parse_sound_example :
    (d : Document) × IsDocument d × (encode sample ≡ encode d) × (layout sample ≡ layout d)
parse_sound_example =
    parse_sound (encode sample) (layout sample) sample-bytes (parse-encode sample sample-IsDocument)

parse-encode_example : parse (encode sample) ≡ ok (layout sample)
parse-encode_example = parse-encode sample sample-IsDocument

vms-encode_example :
    vms (doc_view sample)
    ≡ refs vm_ref encode_vm (layout sample).vm_items sample.verification_methods
vms-encode_example = vms-encode sample sample-IsDocument

services-encode_example :
    services (doc_view sample)
    ≡ refs svc_ref encode_service (layout sample).svc_items sample.services
services-encode_example = services-encode sample sample-IsDocument

is_authority-encode_example : is_authority (doc_view sample) guardian ≡ true
unfolding bytes_eq
is_authority-encode_example = is_authority-encode sample guardian sample-IsDocument

authority_count-encode_example : authority_count (doc_view sample) ≡ 2
authority_count-encode_example = authority_count-encode sample sample-IsDocument

is_native_controller-encode_example : is_native_controller (doc_view sample) guardian ≡ ok true
unfolding bytes_eq
is_native_controller-encode_example = is_native_controller-encode sample guardian sample-IsDocument

require_fragment_free-encode_example :
    require_fragment_free (doc_view sample) second_name
    ≡ err (from_did_error fragment_already_in_use)
unfolding bytes_eq
require_fragment_free-encode_example =
    require_fragment_free-encode sample second_name sample-IsDocument

from_code_iff_example :
    (from_code 6003 ≡ some DidError.fragment_already_in_use)
    ↔ (6003 ≡ code DidError.fragment_already_in_use)
from_code_iff_example = from_code_iff 6003 DidError.fragment_already_in_use

find-discriminator_example :
    find_instruction instructions (discriminator deactivate) ≡ some deactivate
find-discriminator_example = find-discriminator deactivate
