-- ===== src/Scheduler/Weights.antt =====
-- The weights of the round robin.
use manager_key_pro.Base.{ℕ, ◌+◌, ◌<◌, ◌≤◌, ◌%◌, ◌≡◌, ◌∙◌, ap, List, [], ◌∷◌, ◌++◌, String, arith}
use manager_key_pro.Base.Int.{ℤ, pos, ◌+ℤ◌, add64, i64_half}
use manager_key_pro.Base.Int.{wrap64}
use manager_key_pro.Scheduler.Pick.{walk, total_share, rem64, pick_eligible, picked, Cursors}

-- Candidates with their shares as numbers.
abbrev pub weighted : List (String × ℕ) → List (String × ℤ)
weighted [] = []
weighted ((id, n) ∷ es) = (id, pos n) ∷ weighted es

abbrev pub weight : List (String × ℕ) → ℕ
weight [] = 0
weight ((_, n) ∷ es) = n + weight es

add64-pos : (a b : ℕ) → a + b < i64_half → add64 (pos a) (pos b) ≡ pos (a + b)
unfolding add64 wrap64 ◌+ℤ◌
add64-pos a b h = ground arith

total_share-weight :
    (es : List (String × ℕ)) (n : ℕ)
    → n + weight es < i64_half
    → total_share (weighted es) (pos n) ≡ pos (n + weight es)
unfolding total_share
total_share-weight [] n h = ground arith
total_share-weight ((id, m) ∷ es) n h = ground (arith, add64-pos n m, total_share-weight es (n + m))

-- The walk passes the candidates before the slot's own.
walk-hit :
    (before : List (String × ℕ)) (id : String) (n : ℕ) (after : List (String × ℕ)) (slot acc : ℕ)
    (fallback : String)
    → acc + weight (before ++ ((id, n) ∷ after)) < i64_half
    → acc + weight before ≤ slot
    → slot < acc + weight before + n
    → walk (pos slot) (pos acc) (weighted (before ++ ((id, n) ∷ after))) fallback ≡ id
unfolding walk
walk-hit [] id n after slot acc fallback fits lo hi = ground (arith, add64-pos acc n)
walk-hit ((x, m) ∷ before) id n after slot acc fallback fits lo hi =
    ground (arith, add64-pos acc m, walk-hit before id n after slot (acc + m) fallback)

-- The same for a list that is split there.
walk-hit_split :
    (es before : List (String × ℕ)) (id : String) (n : ℕ) (after : List (String × ℕ)) (slot : ℕ)
    (fallback : String)
    → es ≡ before ++ ((id, n) ∷ after)
    → weight es < i64_half
    → weight before ≤ slot
    → slot < weight before + n
    → walk (pos slot) (pos 0) (weighted es) fallback ≡ id
walk-hit_split es before id n after slot fallback split fits lo hi =
    let fits' : weight (before ++ ((id, n) ∷ after)) < i64_half = rw split at fits in
    rw split (
      walk-hit before id n after slot 0 fallback (omega (arith, fits')) (omega (arith, lo))
        (omega (arith, hi)))

-- The slot of a cursor.
rem64-weight : (c total : ℤ) (n k : ℕ) → c ≡ pos n → total ≡ pos k → rem64 c total ≡ pos (n % k)
unfolding rem64
rem64-weight c total n k cursor sum = rw (cursor, sum)

-- With at least two candidates of total share below 2 ^ 63 and a cursor that is not negative, the
-- candidate is picked whose stretch of the cumulative shares holds the cursor's remainder by the total.
pub pick_eligible-weighted :
    (cursors : Cursors) (kid : String) (c : ℕ) (first second : String × ℕ)
    (rest before : List (String × ℕ)) (id : String) (n : ℕ) (after : List (String × ℕ))
    → cursors kid ≡ pos c
    → first ∷ second ∷ rest ≡ before ++ ((id, n) ∷ after)
    → weight (first ∷ second ∷ rest) < i64_half
    → weight before ≤ c % weight (first ∷ second ∷ rest)
    → c % weight (first ∷ second ∷ rest) < weight before + n
    → (pick_eligible cursors kid (weighted (first ∷ second ∷ rest))).1 ≡ picked id
unfolding pick_eligible
pick_eligible-weighted cursors kid c (a, m) (b, k) rest before id n after cursor split fits lo hi =
    let all = (a, m) ∷ (b, k) ∷ rest in
    let total = total_share-weight all 0 (omega (arith, fits)) in
    let hit = walk-hit_split all before id n after (c % weight all) a split fits lo hi in
    let slot =
      rem64-weight (cursors kid) (total_share (weighted all) (pos 0)) c (weight all) cursor
        (total ∙ ap pos (omega arith)) in
    ap picked (ap (λ z. walk z (pos 0) (weighted all) a) slot ∙ hit)
