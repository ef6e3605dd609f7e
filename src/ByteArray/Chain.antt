-- ===== src/ByteArray/Chain.antt =====
-- The loops over the chain of nodes, as operations on the bytes of the whole chain.
use jkyi.Base.{
  ℕ, suc, ◌+◌, ◌-◌, ◌*◌, ◌≤◌, ◌<◌, ◌≡◌, refl, sym, ◌∙◌, ap, arith, some, List, [], ◌∷◌, ◌++◌,
  append-nil, ◌==◌, if◌then◌else◌, length, take, drop, flatten, All, length-append, length-drop,
  take_all, take-append, drop-append,
}
use jkyi.Base.Splice.{splice, length-splice, splice-append_left, splice-append_split}
use native.Mathlib.Decide.{dec_le}
use jkyi.Base.Blocks.{IsBlock}
use jkyi.ByteArray.{write_chain, read_chain, seek_chain}

-- What a run of `write_chain` leaves, on nodes of `b` bytes.
pub record Wrote (b : ℕ) (ns : List (List ℕ)) (npos : ℕ) (buf : List ℕ) (ns' : List (List ℕ))
    (k : ℕ) : Type 0 where
  pub bytes : flatten ns' ≡ splice (flatten ns) npos buf
  pub blocks : All (IsBlock b) ns'
  pub count : length ns' ≡ length ns
  pub lower : k * b ≤ npos + length buf
  pub upper : npos + length buf < k * b + b

abbrev pub WriteRun : ℕ → List (List ℕ) → ℕ → List ℕ → Type 0
WriteRun b ns npos buf =
    (ns' : List (List ℕ)) × (k : ℕ) × (write_chain ns npos buf ≡ some (ns', k))
    × Wrote b ns npos buf ns' k

module _ (b : ℕ) (n : List ℕ) (ns : List (List ℕ)) (npos : ℕ) (buf : List ℕ) (block : length n ≡ b)
    (blocks : All (IsBlock b) ns) (inside : npos < b) where
  -- The node has room for all that is left.
  write_fits : length buf ≤ b - npos → WriteRun b (n ∷ ns) npos buf
  unfolding write_chain
  write_fits h = (
    splice n npos buf ∷ ns,
    if length n == npos + length buf then 1 else 0,
    ground arith,
    record {
      bytes = sym (splice-append_left n (flatten ns) npos buf (omega arith));
      blocks = (length-splice n npos buf ∙ block, blocks);
      count = refl;
      lower = ground arith;
      upper = ground arith;
    },
  )

  -- The node is filled, and the rest goes into the nodes behind it.
  write_runs_over :
      b - npos < length buf → WriteRun b ns 0 (drop (b - npos) buf) → WriteRun b (n ∷ ns) npos buf
  unfolding write_chain
  write_runs_over h (ns', k, e, w) = (
    splice n npos (take (b - npos) buf) ∷ ns',
    suc k,
    ground (arith, e),
    record {
      bytes =
          ground (
            arith,
            splice-append_split n (flatten ns) npos buf (omega arith) (omega arith),
            w.bytes,
          );
      blocks = (length-splice n npos _ ∙ block, w.blocks);
      count = ap suc w.count;
      lower = omega (arith, w.lower, length-drop (b - npos) buf);
      upper = omega (arith, w.upper, length-drop (b - npos) buf);
    },
  )

pub write_chain-Wrote :
    (b : ℕ) (ns : List (List ℕ)) (npos : ℕ) (buf : List ℕ)
    → All (IsBlock b) ns
    → npos < b
    → 0 < length buf
    → npos + length buf ≤ length (flatten ns)
    → WriteRun b ns npos buf
write_chain-Wrote b [] npos buf h hp hb hl = absurd (omega arith)
write_chain-Wrote b (n ∷ ns) npos buf h hp hb hl = elim (dec_le (length buf) (b - npos)) [
  | yes fits ↦ write_fits b n ns npos buf h.0 h.1 hp fits
  | no over ↦ write_runs_over b n ns npos buf h.0 h.1 hp (omega arith) (
      write_chain-Wrote b ns 0 (drop (b - npos) buf) h.1 (omega arith)
        (omega (arith, length-drop (b - npos) buf))
        (omega (arith, length-drop (b - npos) buf, length-append n (flatten ns), h.0)))
]

-- What a run of `read_chain` gives.
pub record Fetched (b : ℕ) (ns : List (List ℕ)) (npos len : ℕ) (bytes : List ℕ) (k : ℕ)
    : Type 0 where
  pub bytes_lem : bytes ≡ take len (drop npos (flatten ns))
  pub lower : k * b ≤ npos + len
  pub upper : npos + len < k * b + b

abbrev pub ReadRun : ℕ → List (List ℕ) → ℕ → ℕ → Type 0
ReadRun b ns npos len =
    (bytes : List ℕ) × (k : ℕ) × (read_chain ns npos len ≡ some (bytes, k))
    × Fetched b ns npos len bytes k

module _ (b : ℕ) (n : List ℕ) (ns : List (List ℕ)) (npos len : ℕ) (block : length n ≡ b)
    (inside : npos < b) (some_bytes : 0 < len) where
  front : drop npos (flatten (n ∷ ns)) ≡ drop npos n ++ flatten ns
  front =
      drop-append npos n (flatten ns)
      ∙ ap (λ (k : ℕ). drop npos n ++ drop k (flatten ns))
          (let e : npos - length n ≡ 0 = omega arith in e)

  read_fits : len ≤ b - npos → ReadRun b (n ∷ ns) npos len
  unfolding read_chain
  read_fits h = (
    take len (drop npos n),
    if length n == len + npos then 1 else 0,
    ground arith,
    record {
      bytes_lem =
          rw (front, take-append len (drop npos n) (flatten ns))
            (ground (arith, length-drop npos n, append-nil (take len (drop npos n))));
      lower = ground arith;
      upper = ground arith;
    },
  )

  read_runs_over : b - npos < len → ReadRun b ns 0 (len - (b - npos)) → ReadRun b (n ∷ ns) npos len
  unfolding read_chain
  read_runs_over h (bytes, k, e, w) = (
    take (b - npos) (drop npos n) ++ bytes,
    suc k,
    ground (arith, e),
    record {
      bytes_lem =
          rw (front, take-append len (drop npos n) (flatten ns))
            (ground (
              arith,
              length-drop npos n,
              w.bytes_lem,
              take_all len (drop npos n),
              take_all (b - npos) (drop npos n),
            ));
      lower = omega (arith, w.lower);
      upper = omega (arith, w.upper);
    },
  )

pub read_chain-Fetched :
    (b : ℕ) (ns : List (List ℕ)) (npos len : ℕ)
    → All (IsBlock b) ns
    → npos < b
    → 0 < len
    → npos + len ≤ length (flatten ns)
    → ReadRun b ns npos len
read_chain-Fetched b [] npos len h hp hb hl = absurd (omega arith)
read_chain-Fetched b (n ∷ ns) npos len h hp hb hl = elim (dec_le len (b - npos)) [
  | yes fits ↦ read_fits b n ns npos len h.0 hp hb fits
  | no over ↦ read_runs_over b n ns npos len h.0 hp hb (omega arith) (
      read_chain-Fetched b ns 0 (len - (b - npos)) h.1 (omega arith) (omega arith)
        (omega (arith, length-append n (flatten ns), h.0)))
]

nonempty_of_bytes : (ns : List (List ℕ)) → 0 < length (flatten ns) → 0 < length ns
nonempty_of_bytes [] h = h
nonempty_of_bytes (n ∷ ns) h = omega arith

-- `seek_chain` finds the node of the byte `v`; at the end of a node, the next one.
pub seek_chain_lem :
    (b : ℕ) (ns : List (List ℕ)) (v : ℕ)
    → All (IsBlock b) ns
    → 0 < b
    → 0 < length ns
    → v ≤ length (flatten ns)
    → (k : ℕ) × (seek_chain ns v ≡ some k) × (k * b ≤ v) × (v < k * b + b)
unfolding seek_chain
seek_chain_lem b [] v h hb hn hl = absurd (omega arith)
seek_chain_lem b (n ∷ ns) v h hb hn hl = elim (dec_le v b) [
  | yes here ↦ (
    if v == length n then 1 else 0,
    ground (arith, h.0),
    ground (arith, h.0),
    ground (arith, h.0),
  )
  | no further ↦
      let (k, e, lower, upper) =
        seek_chain_lem b ns (v - b) h.1 hb
          (nonempty_of_bytes ns (omega (arith, length-append n (flatten ns), h.0)))
          (omega (arith, length-append n (flatten ns), h.0)) in
      (suc k, ground (arith, h.0, e), omega arith, omega arith)
]
