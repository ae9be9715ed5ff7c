-- ===== src/Tests/Trees.antt =====
-- A chain of hashes as the tree, and a codec of operations, with the laws that the theorems ask for.
use chainpoint_core.Prelude.{
  ℕ, zero, suc, ◌+◌, ◌%◌, str_eq, Str, pad, true, false, none, some, List, [], ◌∷◌, ◌++◌, length,
  take, drop, get_elem?, ◌≡◌, refl, ap, sym, ◌∙◌, arith,
}
use chainpoint_core.Types.{ProofLineItem, OpsState, AnchorOpsState}
use chainpoint_core.Strconv.Hex.{IsBytes}
use chainpoint_core.Merkle.{MerkleOps, MerkleLaws, ProofStep, Each, climb}
use chainpoint_core.Calendar.{OpsJson}
use chainpoint_core.Calendar.Spends.{take-append, drop_prefix}
use chainpoint_core.Aggregator.Sound.{OpsJsonLaws}

abbrev clipped : Str → Str
clipped [] = []
clipped (b ∷ bs) = ((b + 1) % 256) ∷ clipped bs

-- A hash of 16 bytes.
abbrev pub toy_sha : Str → Str
toy_sha s = clipped (pad 16 s)

clipped-IsBytes : (s : Str) → IsBytes (clipped s)
clipped-IsBytes [] = tt
clipped-IsBytes (b ∷ bs) = (omega arith, clipped-IsBytes bs)

pub toy_sha-IsBytes : (s : Str) → IsBytes (toy_sha s)
toy_sha-IsBytes s = clipped-IsBytes (pad 16 s)

abbrev chain : (Str → Str) → Str → List Str → Str
chain hash acc [] = acc
chain hash acc (x ∷ xs) = chain hash (hash (acc ++ x)) xs

abbrev rights : List Str → List ProofStep
rights [] = []
rights (x ∷ xs) = record { left = false; value = x } ∷ rights xs

abbrev path : (Str → Str) → Str → List Str → ℕ → List ProofStep
path hash acc [] i = []
path hash acc (x ∷ xs) zero = record { left = true; value = acc } ∷ rights xs
path hash acc (x ∷ xs) (suc i) = path hash (hash (acc ++ x)) xs i

climb-rights :
    (hash : Str → Str) (acc : Str) (xs : List Str) → climb hash acc (rights xs) ≡ chain hash acc xs
climb-rights hash acc [] = refl
climb-rights hash acc (x ∷ xs) = climb-rights hash (hash (acc ++ x)) xs

climb-path :
    (hash : Str → Str) (acc : Str) (xs : List Str) (i : ℕ) (leaf : Str)
    → get_elem? xs i ≡ some leaf
    → climb hash leaf (path hash acc xs i) ≡ chain hash acc xs
climb-path hash acc [] i leaf e = cc
climb-path hash acc (x ∷ xs) zero leaf e =
    ap (λ l. climb hash (hash (acc ++ l)) (rights xs)) (sym (some-injective x leaf e))
    ∙ climb-rights hash (hash (acc ++ x)) xs
  where
    some-injective : (a b : Str) → some a ≡ some b → a ≡ b
    some-injective a b h = ap (λ o. elim o [ none ↦ a | some c ↦ c ]) h
climb-path hash acc (x ∷ xs) (suc i) leaf e = climb-path hash (hash (acc ++ x)) xs i leaf e

module _ (hash : Str → Str) (hash_bytes : (s : Str) → IsBytes (hash s)) where
  chain-IsBytes : (acc : Str) (xs : List Str) → IsBytes acc → IsBytes (chain hash acc xs)
  chain-IsBytes acc [] h = h
  chain-IsBytes acc (x ∷ xs) h = chain-IsBytes (hash (acc ++ x)) xs (hash_bytes (acc ++ x))

  rights-IsBytes : (xs : List Str) → Each IsBytes xs → Each (λ p. IsBytes p.value) (rights xs)
  rights-IsBytes [] h = tt
  rights-IsBytes (x ∷ xs) (h, hs) = (h, rights-IsBytes xs hs)

  path-IsBytes :
      (acc : Str) (xs : List Str) (i : ℕ)
      → IsBytes acc
      → Each IsBytes xs
      → Each (λ p. IsBytes p.value) (path hash acc xs i)
  path-IsBytes acc [] i a h = tt
  path-IsBytes acc (x ∷ xs) zero a (h, hs) = (a, rights-IsBytes xs hs)
  path-IsBytes acc (x ∷ xs) (suc i) a (h, hs) =
      path-IsBytes (hash (acc ++ x)) xs i (hash_bytes (acc ++ x)) hs

abbrev twice : Str → Str
twice s = toy_sha (toy_sha s)

abbrev pub toy_tree : MerkleOps
toy_tree = record {
  root = chain toy_sha [];
  get_proof = path toy_sha [];
  btc_root = chain twice [];
  get_btc_proof = path twice [];
}

pub toy_tree-MerkleLaws : MerkleLaws toy_sha toy_tree
toy_tree-MerkleLaws = record {
  proof_root = climb-path toy_sha [];
  btc_proof_root = climb-path twice [];
  root_bytes = λ leaves h. chain-IsBytes toy_sha toy_sha-IsBytes [] leaves tt;
  btc_root_bytes = λ leaves h. chain-IsBytes twice (λ s. toy_sha-IsBytes (toy_sha s)) [] leaves tt;
  proof_bytes = λ leaves i h. path-IsBytes toy_sha toy_sha-IsBytes [] leaves i tt h;
  btc_proof_bytes =
      λ leaves i h. path-IsBytes twice (λ s. toy_sha-IsBytes (toy_sha s)) [] leaves i tt h;
}

-- The root of a tree with leaves is not empty.
chain_rooted : (b : ℕ) (bs : Str) (xs : List Str) → str_eq (chain toy_sha (b ∷ bs) xs) [] ≡ false
unfolding str_eq pad
chain_rooted b bs [] = refl
chain_rooted b bs (x ∷ xs) = chain_rooted ((b + 1) % 256) (clipped (pad 15 (bs ++ x))) xs

pub toy_tree_rooted : (l : Str) (ls : List Str) → str_eq (toy_tree.root (l ∷ ls)) [] ≡ false
unfolding str_eq pad
toy_tree_rooted [] ls = chain_rooted 1 (clipped (pad 15 [])) ls
toy_tree_rooted (b ∷ bs) ls = chain_rooted ((b + 1) % 256) (clipped (pad 15 bs)) ls

-- Texts with their length in front.
abbrev put_text : Str → Str → Str
put_text t rest = length t ∷ t ++ rest

abbrev get_text : Str → Str × Str
get_text [] = ([], [])
get_text (n ∷ s) = (take n s, drop n s)

get_text-put_text : (t rest : Str) → get_text (put_text t rest) ≡ (t, rest)
get_text-put_text t rest = rw (take-append t rest, drop_prefix t rest) refl

abbrev put_items : List ProofLineItem → Str → Str
put_items [] rest = rest
put_items (p ∷ ps) rest = put_text p.left (put_text p.right (put_text p.op (put_items ps rest)))

abbrev get_item : Str → ProofLineItem × Str
get_item s =
    let (left, s1) = get_text s in
    let (right, s2) = get_text s1 in
    let (op, s3) = get_text s2 in (record { left = left; right = right; op = op }, s3)

get_item-put :
    (p : ProofLineItem) (rest : Str)
    → get_item (put_text p.left (put_text p.right (put_text p.op rest))) ≡ (p, rest)
get_item-put p rest =
    let after_right = put_text p.op rest in
    let after_left = put_text p.right after_right in
    rw
      (
        drop_prefix p.left after_left,
        take-append p.left after_left,
        drop_prefix p.right after_right,
        take-append p.right after_right,
        drop_prefix p.op rest,
        take-append p.op rest,
      )
      refl

abbrev get_items : ℕ → Str → List ProofLineItem × Str
get_items zero s = ([], s)
get_items (suc n) s = let (p, s1) = get_item s in let (ps, s2) = get_items n s1 in (p ∷ ps, s2)

get_items-put_items :
    (ps : List ProofLineItem) (rest : Str) → get_items (length ps) (put_items ps rest) ≡ (ps, rest)
get_items-put_items [] rest = refl
get_items-put_items (p ∷ ps) rest =
    ap (λ (r : ProofLineItem × Str). let (qs, s2) = get_items (length ps) r.1 in (r.0 ∷ qs, s2))
      (get_item-put p (put_items ps rest))
    ∙ ap (λ (r : List ProofLineItem × Str). (p ∷ r.0, r.1)) (get_items-put_items ps rest)

abbrev put_texts : List Str → Str → Str
put_texts [] rest = rest
put_texts (t ∷ ts) rest = put_text t (put_texts ts rest)

abbrev get_texts : ℕ → Str → List Str × Str
get_texts zero s = ([], s)
get_texts (suc n) s = let (t, s1) = get_text s in let (ts, s2) = get_texts n s1 in (t ∷ ts, s2)

get_texts-put_texts :
    (ts : List Str) (rest : Str) → get_texts (length ts) (put_texts ts rest) ≡ (ts, rest)
get_texts-put_texts [] rest = refl
get_texts-put_texts (t ∷ ts) rest =
    ap (λ (r : Str × Str). let (us, s2) = get_texts (length ts) r.1 in (r.0 ∷ us, s2))
      (get_text-put_text t (put_texts ts rest))
    ∙ ap (λ (r : List Str × Str). (t ∷ r.0, r.1)) (get_texts-put_texts ts rest)

abbrev encode_ops : List ProofLineItem → Str → Str
encode_ops ops rest = length ops ∷ put_items ops rest

abbrev decode_ops : Str → List ProofLineItem × Str
decode_ops [] = ([], [])
decode_ops (n ∷ s) = get_items n s

abbrev encode_anchor : AnchorOpsState → Str
encode_anchor o =
    encode_ops o.ops
      (put_text o.anchor.anchor_id (length o.anchor.uris ∷ put_texts o.anchor.uris []))

abbrev decode_uris : Str → List Str
decode_uris [] = []
decode_uris (n ∷ s) = (get_texts n s).0

abbrev with_anchor : List ProofLineItem × Str → AnchorOpsState
with_anchor (ops, s) =
    let (id, rest) = get_text s in
    record { ops = ops; anchor = record { anchor_id = id; uris = decode_uris rest } }

abbrev decode_anchor : Str → AnchorOpsState
decode_anchor s = with_anchor (decode_ops s)

decode-encode_anchor : (o : AnchorOpsState) → decode_anchor (encode_anchor o) ≡ o
decode-encode_anchor o =
    let uris = o.anchor.uris in
    let tail = length uris ∷ put_texts uris [] in
    ap with_anchor (get_items-put_items o.ops (put_text o.anchor.anchor_id tail))
    ∙ ap
        (λ (r : Str × Str).
          let x : AnchorOpsState = record {
            ops = o.ops;
            anchor = record { anchor_id = r.0; uris = decode_uris r.1 };
          } in
          x)
        (get_text-put_text o.anchor.anchor_id tail)
    ∙ ap
        (λ (r : List Str × Str).
          let x : AnchorOpsState = record {
            ops = o.ops;
            anchor = record { anchor_id = o.anchor.anchor_id; uris = r.0 };
          } in
          x)
        (get_texts-put_texts uris [])

abbrev pub toy_ops : OpsJson
toy_ops = record {
  encode = λ o. some (encode_ops o.ops []);
  decode = λ s. (record { ops = (decode_ops s).0 }, false);
  encode_anchor = λ o. some (encode_anchor o);
  decode_anchor = λ s. (decode_anchor s, false);
}

pub toy_ops-OpsJsonLaws : OpsJsonLaws toy_ops
toy_ops-OpsJsonLaws = record {
  stored = λ o a. (
    encode_ops o.ops [],
    refl,
    ap (λ (r : List ProofLineItem × Str). let x : OpsState = record { ops = r.0 } in (x, false))
        (get_items-put_items o.ops []),
  );
  anchor_stored = λ o a b c.
      (encode_anchor o, refl, ap (λ (x : AnchorOpsState). (x, false)) (decode-encode_anchor o));
}
