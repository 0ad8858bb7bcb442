-- ===== src/PrintJob/Hash/Chunks.antt =====
-- The hash of a file's contents does not depend on how the file is read.
use bambu_farm.Base.{
  ℕ, zero, suc, ◌<◌, ◌≤◌, true, false, ltb, some, [], ◌∷◌, ◌++◌, ◌≡◌, refl, sym, ap, ◌∙◌, arith,
  length, take, drop, take-append-drop, length-take, length-drop, drop_all, append-nil, Bool-cases,
  inl, inr,
}
use bambu_farm.Base.Text.{Text, is_empty}
use bambu_farm.PrintJob.Hash.{
  Files, hash_byte, hash_bytes, hash_seed, hash_file, hex8, content_suffix, short_content_suffix,
}

hash_bytes-append : (h : ℕ) (s t : Text) → hash_bytes h (s ++ t) ≡ hash_bytes (hash_bytes h s) t
unfolding hash_bytes
hash_bytes-append h [] t = refl
hash_bytes-append h (c ∷ s) t = hash_bytes-append (hash_byte h c) s t

-- A read that comes up short has read all.
take_short : (n : ℕ) (s : Text) → ltb (length (take n s)) n ≡ true → take n s ≡ s
take_short n s h =
    sym (append-nil (take n s))
    ∙ ap (λ r. take n s ++ r) (sym (drop_all n s short))
    ∙ take-append-drop n s
  where
    short : length s ≤ n
    short = ground (arith, length-take n s)

hash_file-hash_bytes :
    (fuel buffer hash : ℕ) (rest : Text)
    → 0 < buffer
    → length rest < fuel
    → hash_file fuel buffer hash rest ≡ hash_bytes hash rest
unfolding hash_file hash_bytes
hash_file-hash_bytes zero buffer hash rest b h = absurd (omega arith)
hash_file-hash_bytes (suc fuel) buffer hash rest b h =
    elim (Bool-cases (ltb (length (take buffer rest)) buffer)) [
      | inl e ↦ rw (e, hash_file) (ap (hash_bytes hash) (take_short buffer rest e))
      | inr e ↦
          rw (e, hash_file)
            (hash_file-hash_bytes fuel buffer (hash_bytes hash (take buffer rest))
                (drop buffer rest) b (left e)
              ∙ sym (hash_bytes-append hash (take buffer rest) (drop buffer rest))
              ∙ ap (hash_bytes hash) (take-append-drop buffer rest))
    ]
  where
    left : ltb (length (take buffer rest)) buffer ≡ false → length (drop buffer rest) < fuel
    left e = ground (arith, length-take buffer rest, length-drop buffer rest)

-- The suffix of a file that can be opened is the hash of all its bytes in order: the loop that reads it
-- in pieces of 8192 bytes ends, at the end of the file, and hashes each byte once.
pub short_content_suffix-hash_bytes :
    (files : Files) (path contents : Text)
    → is_empty path ≡ false
    → files path ≡ some contents
    → short_content_suffix files path ≡ hex8 (hash_bytes hash_seed contents)
unfolding short_content_suffix content_suffix
short_content_suffix-hash_bytes files path contents named opened =
    rw (named, opened)
      (ap hex8 (
        hash_file-hash_bytes (suc (length contents)) 8192 hash_seed contents (omega arith)
          (omega arith)))
