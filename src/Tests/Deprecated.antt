-- ===== src/Tests/Deprecated.antt =====
-- The theorems on the forms of earlier releases, on the sample and on a few bytes.
use bio_did_registry.Base.{◌≡◌, [], ◌∷◌, ◌++◌, if◌then◌else◌, arith}
use bio_did_registry.Error.{ok, err, invalid_instruction_data}
use bio_did_registry.Bytes.{Bytes, u16_le, u32_le}
use bio_did_registry.Utf8.{from_utf8}
use bio_did_registry.Reader.Laws.{prefixed}
use bio_did_registry.Reader.Offsets.{read_at-fields}
use bio_did_registry.State.View
use bio_did_registry.State.Deprecated
use bio_did_registry.State.Deprecated.{read_u32, read_bytes, read_len_prefixed}
use bio_did_registry.Document.{encode, layout}
use bio_did_registry.Document.Entries.{doc_view}
use bio_did_registry.Document.Deprecated.{forms_agree}
use bio_did_registry.Instructions.Deprecated.{
  ix_read_u32, ix_read_u16, ix_read_u8, ix_read_len_prefixed, ix_read_str, ix_finish,
}
use bio_did_registry.Tests.Samples.{sample, sample-IsDocument, owner, second_name, service_name}

forms_agree_example :
    (Deprecated.require_authority (encode sample) (layout sample) owner
      ≡ View.require_authority (doc_view sample) owner)
    × (Deprecated.authority_count (encode sample) (layout sample)
        ≡ ok (View.authority_count (doc_view sample)))
    × (Deprecated.require_fragment_free (encode sample) (layout sample) service_name
        ≡ View.require_fragment_free (doc_view sample) service_name)
forms_agree_example = forms_agree sample owner service_name sample-IsDocument

read_at-fields_example :
    let a : Bytes = 1 ∷ 2 ∷ 3 ∷ [] in
    let c : Bytes = 9 ∷ [] in
    (read_u32 (a ++ (u32_le 70000 ++ c)) 3 ≡ ok (70000, 7))
    × (ix_read_u32 (a ++ (u32_le 70000 ++ c)) 3 ≡ ok (70000, 7))
    × (ix_read_u16 (a ++ (u16_le 300 ++ c)) 3 ≡ ok (300, 5))
    × (ix_read_u8 (a ++ (8 ∷ c)) 3 ≡ ok (8, 4))
    × (read_bytes (a ++ (second_name ++ c)) 3 2 ≡ ok (second_name, 5))
    × (read_len_prefixed (a ++ (prefixed second_name ++ c)) 3 ≡ ok (second_name, 9))
    × (ix_read_len_prefixed (a ++ (prefixed second_name ++ c)) 3 ≡ ok (second_name, 9))
    × (ix_read_str (a ++ (prefixed second_name ++ c)) 3
        ≡ (if from_utf8 second_name then ok (second_name, 9) else err invalid_instruction_data))
    × (ix_finish a 3 ≡ ok tt)
    × (ix_finish (a ++ (8 ∷ c)) 3 ≡ err invalid_instruction_data)
read_at-fields_example =
    read_at-fields (1 ∷ 2 ∷ 3 ∷ []) second_name (9 ∷ []) 70000 300 8 (omega arith) (omega arith)
      (omega arith)
