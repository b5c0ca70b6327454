-- ===== src/Rules/Whole/FromBuffer.antt =====
-- Whole runs of `add_verification_method_from_buffer`, over the store
-- (program/src/instructions/add_verification_method_from_buffer.rs).
use bio_did_registry.Base.{
  ℕ, ◌+◌, ◌≤◌, ◌≡◌, ◌==◌, refl, sym, ap, ◌∙◌, false, some, List, [], ◌∷◌, ◌++◌, append-nil, length,
  arith, All, replicate, length-replicate, bytes_eq, ==_iff,
}
use bio_did_registry.Error.{
  Result, ok, ok_or, require, >>=-eq-ok, ok_injective, invalid_instruction_data,
  key_buffer_incomplete,
}
use bio_did_registry.Error
use bio_did_registry.Bytes.{Bytes, IsByte, slice}
use bio_did_registry.State.Consts.{vm_space, expected_key_len, kb_off_key}
use bio_did_registry.State.Checks.{NewMethod, check_new_method, check_new_key}
use bio_did_registry.State.Edits.{insert_vm, stamp}
use bio_did_registry.State.KeyBuffer.{KeyBufferRef}
use bio_did_registry.State.KeyBuffer
use bio_did_registry.Document.{Document, IsDocument, IsVm, encode, layout}
use bio_did_registry.Document.Parts.{length-encode}
use bio_did_registry.Document.Entries.{doc_view}
use bio_did_registry.Document.Updates.{add_method, method_of, touched}
use bio_did_registry.Runtime.{Runtime, Store, Act, ◌>>=◌, ◌>>◌, lift, borrow, edit}
use bio_did_registry.Events.{emit}
use bio_did_registry.Instructions.Shared.{first, grow, close_to}
use bio_did_registry.Instructions.Args.{parse_args, no_args}
use bio_did_registry.Instructions.AddVerificationMethodFromBuffer.{
  staged, process, process_accounts,
}
use bio_did_registry.Events.{did_modified}
use bio_did_registry.Rules.{require_inv}
use bio_did_registry.Rules.Authorization.{lift_then}
use bio_did_registry.Rules.Controllers.{MayUpdate}
use bio_did_registry.Rules.Uniqueness.{add_method-keeps_IsUnique}
use bio_did_registry.Rules.Additions.{bytes_eq_sym}
use bio_did_registry.Rules.Buffers.{owning_then}
use bio_did_registry.Rules.Storage.{RuntimeLaws, grow-content, edit_then, emit-SameContent}
use bio_did_registry.Rules.Bystanders.{grow-other, close_to-other}
use bio_did_registry.Rules.Runs.{authorize_on, payer_then, signer_then, system_then, verify_then}
use bio_did_registry.Rules.Finish.{Holds, stamped, stamped-encode}
use bio_did_registry.Rules.Health.{IsHealthy, Continues, stamped-Continues}
use bio_did_registry.Rules.Whole.Methods.{added-IsHealthy}
use bio_did_registry.Rules.Whole.Staged.{slice_inv, parse_inv}

module _ (rt : Runtime) (laws : RuntimeLaws rt) (payer a buffer subject : Bytes)
    (apart : bytes_eq a buffer ≡ false) (apart' : bytes_eq buffer a ≡ false) (d : Document)
    (m : NewMethod) (key : Bytes) (end : ℕ) (after : Document) (fits : IsDocument after) where
  -- The tail: the account grows, the key moves over, the buffer is closed.
  moved-Holds :
      (s : Store) (r : Unit {0} × Store)
      → slice kb_off_key end (s.accounts buffer).content ≡ ok key
      → (n : ℕ) → length (s.accounts a).content ≤ n
      → ((g : Bytes)
          → length (s.accounts a).content + length g ≡ n
          → insert_vm ((s.accounts a).content ++ g) (layout d) m key ≡ ok (encode after))
      → (grow rt a payer n
            >> (lift rt.unix_timestamp >>= λ now. borrow buffer >>= λ buf.
                edit a (λ b.
                  Error.◌>>=◌
                    (slice kb_off_key end buf)
                    (λ key. Error.◌>>=◌ (insert_vm b (layout d) m key) (stamp now)))
                >>= λ version. close_to rt buffer payer >> emit did_modified a subject version))
          s
        ≡ ok r
      → Holds r.1 a after
  moved-Holds s r sliced n room run h =
      let write : ℕ → Bytes → Bytes → Result (Bytes × ℕ) = λ now buf b.
        Error.◌>>=◌ (slice kb_off_key end buf)
          (λ key. Error.◌>>=◌ (insert_vm b (layout d) m key) (stamp now)) in
      let finally : ℕ → Act (Unit {0}) =
        λ version. close_to rt buffer payer >> emit did_modified a subject version in
      let tail : ℕ → Act (Unit {0}) =
        λ now. borrow buffer >>= λ buf. edit a (write now buf) >>= finally in
      let ((u, t), grown, h₁) =
        >>=-eq-ok (grow rt a payer n s) (λ p. (lift rt.unix_timestamp >>= tail) p.1) h in
      let (g, larger, size) = grow-content rt laws a payer n s (u, t) room grown in
      let kept = grow-other rt laws a payer n buffer s (u, t) apart grown in
      let (now, clock, h₂) = lift_then rt.unix_timestamp tail t r h₁ in
      let (p, t', made, stored, h₃) =
        edit_then a (write now (t.accounts buffer).content) finally t r h₂ in
      let ((u', t''), closed, h₄) =
        >>=-eq-ok (close_to rt buffer payer t') (λ q. emit did_modified a subject p.1 q.1) h₃ in
      let range = laws.clock_range now clock in
      let insert : Bytes → Result Bytes = λ b. insert_vm b (layout d) m key in
      let cut : slice kb_off_key end (t.accounts buffer).content ≡ ok key =
        ap (slice kb_off_key end) kept ∙ sliced in
      let filled : insert (t.accounts a).content ≡ ok (encode after ++ []) =
        ap insert larger ∙ (run g size ∙ ap ok (sym (append-nil (encode after)))) in
      let written : stamped insert now (t.accounts a).content ≡ ok p =
        ap
          (λ k.
            Error.◌>>=◌ k
              (λ key. stamped (λ b. insert_vm b (layout d) m key) now (t.accounts a).content))
          (sym cut)
        ∙ made in
      (
        now,
        range,
        emit-SameContent did_modified a subject p.1 t'' r h₄ a
            ∙ (close_to-other rt buffer payer a t' (u', t'') apart' closed
                ∙ (stored
                    ∙ (stamped-encode insert after fits now (t.accounts a).content [] p range filled
                          written
                        ∙ append-nil (encode (touched after now))))),
      )

room_left : (x g end entry : ℕ) → x + g ≡ end + entry → x ≡ end → g ≡ entry
room_left x g end entry total e = omega (arith, total, e)

module _ (rt : Runtime) (laws : RuntimeLaws rt) (payer authority a buffer sys : Bytes)
    (rest : List Bytes) (args : Bytes) (s : Store) (d : Document) (r : Unit {0} × Store)
    (are_bytes : (c : Bytes) → All IsByte (s.accounts c).content) (healthy : IsHealthy d)
    (holds : (s.accounts a).content ≡ encode d) where
  pub from_buffer-Continues :
      bytes_eq a buffer ≡ false
      → process rt (payer ∷ authority ∷ a ∷ buffer ∷ sys ∷ rest) args s ≡ ok r
      → MayUpdate rt s d authority (first rest) × Continues r.1 a d
  unfolding process process_accounts KeyBuffer.key
  from_buffer-Continues apart h =
      let (u, parsed, h₁) = lift_then (parse_args no_args args) _ s r h in
      let h₂ = payer_then rt s r payer _ h₁ in
      let (signed, h₃) = signer_then rt s r authority _ h₂ in
      let h₄ = system_then rt s r sys _ h₃ in
      let (subject, loaded, h₅) = verify_then rt s r a _ h₄ in
      let (owned, h₆) = owning_then rt s r buffer authority (some a) _ h₅ in
      let (kb, read, h₇) = lift_then (KeyBuffer.parse (s.accounts buffer).content) _ s r h₆ in
      let (u', complete, h₈) =
        lift_then (require (kb.written == kb.key_len) key_buffer_incomplete) _ s r h₇ in
      let (k, known, h₉) =
        lift_then (ok_or (expected_key_len kb.method_type) invalid_instruction_data) _ s r h₈ in
      let (living, may, h₁₀) =
        authorize_on rt s r authority a (first rest) _ d are_bytes healthy.fits holds h₉ in
      let (u'', checked, h₁₁) = lift_then (check_new_method (doc_view d) (staged kb)) _ s r h₁₀ in
      let (key, sliced, h₁₂) = lift_then (KeyBuffer.key kb (s.accounts buffer).content) _ s r h₁₁ in
      let (w, key_fits, h₁₃) =
        lift_then (check_new_key rt.bytes_are_curve_point (staged kb) key authority) _ s r h₁₂ in
      let whole : kb.written ≡ kb.key_len =
        (==_iff _ _).0 (require_inv _ key_buffer_incomplete u' complete) in
      let (size, own) =
        slice_inv kb_off_key (kb_off_key + kb.written) _ key (are_bytes buffer) sliced in
      let (named, byte, small, short) =
        parse_inv (s.accounts buffer).content kb (are_bytes buffer) read in
      let is_vm : IsVm (method_of (staged kb) key) =
        (named, byte, small, (omega (arith, size, whole, short), own)) in
      let key_len : length key ≡ kb.key_len = omega (arith, size, whole) in
      let entry = vm_space (length kb.fragment) kb.key_len in
      let edited = λ (grown : Bytes) (e : length grown ≡ entry).
        add_method-keeps_IsUnique d (staged kb) key grown healthy.fits healthy.unique is_vm
          (omega (arith, e, key_len)) checked in
      let (run, fits, unique, few) = edited (replicate entry 0) (length-replicate entry 0) in
      let after = add_method d (method_of (staged kb) key) in
      let stored = length-encode d healthy.fits in
      (
        may,
        stamped-Continues r.1 a d after
            (added-IsHealthy d (method_of (staged kb) key) healthy fits unique few) refl
            (moved-Holds rt laws payer a buffer subject apart (bytes_eq_sym buffer a ∙ apart) d
              (staged kb) key (kb_off_key + kb.key_len) after fits s r
              (ap (λ n. slice kb_off_key (kb_off_key + n) (s.accounts buffer).content) (sym whole)
                ∙ sliced)
              ((layout d).end + entry) (omega (arith, ap length holds, stored))
              (λ g size.
                ap (λ b. insert_vm (b ++ g) (layout d) (staged kb) key) holds
                ∙ (edited g (room_left _ _ _ _ size (ap length holds ∙ stored))).0)
              h₁₃),
      )
