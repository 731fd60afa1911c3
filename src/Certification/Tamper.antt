-- ===== src/Certification/Tamper.antt =====
-- The construction-time seal of engine/evidence/models.py, against changes of the evidence.
use cobol_java_transformatio.Common.{
  ◌≡◌, ◌≢◌, refl, sym, ◌∙◌, ap, true, some, List, [], ◌∷◌, map, arith, text_eq_iff, ok,
}
use mathlib.Core.Option.{some-injective}
use cobol_java_transformatio.Domain.{ContentHash, hash_eq}
use cobol_java_transformatio.Evidence.Model.{EvidenceManifest, ArtifactEvidence}
use cobol_java_transformatio.Evidence.Graph.{
  Hashing, canonical_evidence_graph, manifest_hash, post_init, artifact_node,
}
use cobol_java_transformatio.Evidence.Admission.{wrap, validate-IsAdmissible}
use cobol_java_transformatio.Evidence.Integrity.{validate}
use cobol_java_transformatio.Verdict.Model.{Platform}

-- The digests of two evidence graphs differ.
abbrev pub Distinguishes : Hashing → EvidenceManifest → EvidenceManifest → Type 0
Distinguishes h m n = (manifest_hash h m).digest ≢ (manifest_hash h n).digest

module _ (p : Platform) where
  same_digest : (g h : ContentHash) → hash_eq g h ≡ true → g.digest ≡ h.digest
  same_digest g h e = ground (arith, text_eq_iff g.digest h.digest)

  sealed_by_init :
      (m : EvidenceManifest)
      → (post_init p.hashing m).sealed_hash ≡ some (manifest_hash p.hashing m)
  unfolding post_init
  sealed_by_init m = refl

  -- A manifest that carries the seal of another one, whose evidence graph has another digest, is
  -- never accepted: changing sealed evidence in place is detected.
  pub validate-tampered :
      (m n : EvidenceManifest)
      → n.sealed_hash ≡ (post_init p.hashing m).sealed_hash
      → Distinguishes p.hashing m n
      → validate p n ≢ ok (wrap p n)
  validate-tampered m n s d h =
      let (seal, e, same) = ((validate-IsAdmissible p n).0 h).seal in
      let first : seal ≡ manifest_hash p.hashing m =
        some-injective _ _ (sym e ∙ s ∙ sealed_by_init m) in
      d (
        sym (ap (λ (x : ContentHash). x.digest) first)
        ∙ same_digest seal (manifest_hash p.hashing n) same)

  -- Sealing again at construction changes no evidence, and the seal is the hash of the sealed
  -- manifest.
  pub post_init_seal :
      (m : EvidenceManifest)
      → (post_init p.hashing m).sealed_hash ≡ some (manifest_hash p.hashing (post_init p.hashing m))
  unfolding post_init manifest_hash canonical_evidence_graph
  post_init_seal m = refl

-- The artifact with another hash in its identity. The hash that the capture recorded stays.
abbrev pub with_identity_hash : ContentHash → ArtifactEvidence → ArtifactEvidence
with_identity_hash h a = record a { artifact = record (a.artifact) { content_hash = h } }

abbrev pub forge : ContentHash → EvidenceManifest → EvidenceManifest
forge h m = record m { artifact_evidence = map (with_identity_hash h) m.artifact_evidence }

map_nodes :
    (h : ContentHash) (arts : List ArtifactEvidence)
    → map artifact_node (map (with_identity_hash h) arts) ≡ map artifact_node arts
map_nodes h [] = refl
map_nodes h (a ∷ arts) = ap (◌∷◌ (artifact_node a)) (map_nodes h arts)

-- The manifest hash does not cover the content hash inside an artifact's identity: with these
-- hashes all replaced by any other, the hash of every manifest stays the same.
pub manifest_hash-forge :
    (k : Hashing) (h : ContentHash) (m : EvidenceManifest)
    → manifest_hash k (forge h m) ≡ manifest_hash k m
unfolding manifest_hash canonical_evidence_graph
manifest_hash-forge k h m = rw (map_nodes h m.artifact_evidence)
