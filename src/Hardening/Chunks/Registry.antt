-- ===== src/Hardening/Chunks/Registry.antt =====
-- The chunks of a manifest can be asked for by their names.
use llm_sca_tooling.Prelude.Decimal.{decimal-injective, append-cancel, text_take}
use llm_sca_tooling.Prelude.{
  ℕ, ◌+◌, ◌<◌, String, ◌≡◌, ◌∙◌, refl, inl, inr, Option, some, List, [], ◌∷◌, arith, All, str_eq,
  eq_iff, eq_refl, Bool-cases,
}
use llm_sca_tooling.Prelude.Dict.{Dict, lookup, lookup-insert}
use llm_sca_tooling.Hardening.Chunks.{
  GraphChunk, number_chunks, chunk, store_chunks, get_chunk, split_groups, group_by_module, false,
  chunk_name, ChunkData,
}

-- The chunks of one graph have different names.
chunk_name-injective :
    (repo_id git_sha : String) (i j : ℕ)
    → chunk_name repo_id git_sha i ≡ chunk_name repo_id git_sha j
    → i ≡ j
unfolding chunk_name
chunk_name-injective repo_id git_sha i j e = decimal-injective i j (
    append-cancel ":" _ _ (
      append-cancel (text_take 8 git_sha) _ _
        (append-cancel ":" _ _ (append-cancel repo_id _ _ (append-cancel "chunk:" _ _ e)))))

module _ (registry : Option (String → ChunkData → String)) where
  later_chunks :
      (repo_id git_sha : String) (i j : ℕ) (cs : List (List String)) (d : Dict GraphChunk)
      → j < i
      → lookup
          (chunk_name repo_id git_sha j)
          (store_chunks (number_chunks registry repo_id git_sha i cs) d)
        ≡ lookup (chunk_name repo_id git_sha j) d
  unfolding store_chunks number_chunks
  later_chunks repo_id git_sha i j [] d h = refl
  later_chunks repo_id git_sha i j (c ∷ cs) d h =
      let a = chunk_name repo_id git_sha i in
      let b = chunk_name repo_id git_sha j in
      let apart : str_eq a b ≡ false = elim (Bool-cases (str_eq a b)) [
        | inl e ↦
            absurd (omega (arith, chunk_name-injective repo_id git_sha i j ((eq_iff a b).0 e)))
        | inr e ↦ e
      ] in
      later_chunks repo_id git_sha (i + 1) j cs _ (omega arith)
      ∙ lookup-insert a b _ d
      ∙ rw apart refl

  stored_chunks :
      (repo_id git_sha : String) (i : ℕ) (cs : List (List String)) (d : Dict GraphChunk)
      → let ns = number_chunks registry repo_id git_sha i cs in
        All (λ c. lookup c.chunk_id (store_chunks ns d) ≡ some c) ns
  unfolding store_chunks number_chunks
  stored_chunks repo_id git_sha i [] d = tt
  stored_chunks repo_id git_sha i (c ∷ cs) d =
      let a = chunk_name repo_id git_sha i in
      (
        later_chunks repo_id git_sha (i + 1) i cs _ (omega arith)
            ∙ lookup-insert a a _ d
            ∙ rw (eq_refl a) refl,
        stored_chunks repo_id git_sha (i + 1) cs _,
      )

  -- After a graph is chunked, each chunk of its manifest is what `get_chunk` gives for the chunk's
  -- name, whatever was stored before.
  pub get_chunk-chunk :
      (max : ℕ) (repo_id git_sha : String) (nodes : List String) (d : Dict GraphChunk)
      → let m = chunk registry max repo_id git_sha nodes in
        All (λ c. get_chunk c.chunk_id (store_chunks m.chunks d) ≡ some c) m.chunks
  unfolding chunk get_chunk
  get_chunk-chunk max repo_id git_sha nodes d =
      stored_chunks repo_id git_sha 0 (split_groups max (group_by_module nodes)) d
