-- ===== src/Policy/Window.antt =====
-- The limiter's sliding window: no minute holds more admitted requests than the limit.
use manager_key_pro.Base.{
  ◌≡◌, refl, sym, ◌∙◌, ap, false, inl, inr, List, [], ◌∷◌, ◌++◌, arith, length, length-append,
  if◌then◌else◌, Bool-cases,
}
use manager_key_pro.Base.Int.{ℤ, pos, ◌≤ℤ◌, leb_ℤ}
use manager_key_pro.Policy.{kept, limit, allow, window_start}

-- One key's requests at given times, oldest first: the limiter's hits and all admitted times.
unfoldable pub limit_run : ℤ → List ℤ → List ℤ → List ℤ → List ℤ × List ℤ
limit_run rpm [] hits admitted = (hits, admitted)
limit_run rpm (now ∷ times) hits admitted =
    let (hits', d) = limit rpm now hits in
    limit_run rpm times hits' (if d.allowed then admitted ++ (now ∷ []) else admitted)

kept-append : (w : ℤ) (xs ys : List ℤ) → kept w (xs ++ ys) ≡ kept w xs ++ kept w ys
unfolding kept
kept-append w [] ys = refl
kept-append w (x ∷ xs) ys = ground (arith, kept-append w xs ys)

-- A later window sees the same hits after an earlier one has dropped its own.
kept-kept : (v w : ℤ) (xs : List ℤ) → v ≤ℤ w → kept w (kept v xs) ≡ kept w xs
unfolding kept
kept-kept v w [] h = refl
kept-kept v w (x ∷ xs) h = ground (arith, kept-kept v w xs h)

-- Every admitted request found at most `rpm` admitted requests, itself among them, in the minute that
-- ended with it. The list is read from its end: the last request and those before it.
pub data Paced (rpm : ℤ) : List ℤ → Type 0 where
  none_yet : Paced rpm []
  admit :
      {before after : List ℤ} (now : ℤ)
      → Paced rpm before
      → pos (length (kept (window_start now) (before ++ (now ∷ [])))) ≤ℤ rpm
      → after ≡ before ++ (now ∷ [])
      → Paced rpm after

-- The window's start does not fall from one request to the next.
pub data Rising : ℤ → List ℤ → Type 0 where
  stop : {w : ℤ} → Rising w []
  rise :
      {w : ℤ} {now : ℤ} {times : List ℤ}
      → w ≤ℤ window_start now
      → window_start now ≤ℤ now
      → Rising (window_start now) times
      → Rising w (now ∷ times)

-- The hits are the admitted requests, as far as any later window sees them.
Tracks : ℤ → List ℤ → List ℤ → Type 0
Tracks w hits admitted = (v : ℤ) → w ≤ℤ v → kept v hits ≡ kept v admitted

-- Admitting or refusing keeps the hits in step with the admitted requests.
kept-Tracks :
    (w start : ℤ) (hits admitted : List ℤ)
    → w ≤ℤ start
    → Tracks w hits admitted
    → Tracks start (kept start hits) admitted
unfolding Tracks
kept-Tracks w start hits admitted le t v h = kept-kept start v hits h ∙ t v (omega arith)

Tracks-later :
    (w start : ℤ) (hits admitted : List ℤ)
    → w ≤ℤ start
    → Tracks w hits admitted
    → Tracks start hits admitted
unfolding Tracks
Tracks-later w start hits admitted le t v h = t v (omega arith)

append-Tracks :
    (w now : ℤ) (hits admitted : List ℤ)
    → Tracks w hits admitted
    → Tracks w (hits ++ (now ∷ [])) (admitted ++ (now ∷ []))
unfolding Tracks
append-Tracks w now hits admitted t v h =
    kept-append v hits (now ∷ [])
    ∙ ap (λ xs. xs ++ kept v (now ∷ [])) (t v h)
    ∙ sym (kept-append v admitted (now ∷ []))

-- One request below the limit: with it the window holds at most `rpm` hits.
room :
    (rpm now : ℤ) (hits admitted : List ℤ)
    → window_start now ≤ℤ now
    → Tracks (window_start now) hits admitted
    → leb_ℤ rpm (pos (length (kept (window_start now) hits))) ≡ false
    → pos (length (kept (window_start now) (admitted ++ (now ∷ [])))) ≤ℤ rpm
unfolding kept Tracks
room rpm now hits admitted le t test = rw (kept-append (window_start now) admitted (now ∷ [])) (
    ground (
      arith,
      t (window_start now) (omega arith),
      length-append (kept (window_start now) admitted) (now ∷ []),
    ))

limit_run-Paced_from :
    (rpm : ℤ) (times : List ℤ) (w : ℤ) (hits admitted : List ℤ)
    → Rising w times
    → Tracks w hits admitted
    → Paced rpm admitted
    → Paced rpm (limit_run rpm times hits admitted).1
unfolding limit_run limit allow
limit_run-Paced_from rpm [] w hits admitted r t p = p
limit_run-Paced_from rpm (now ∷ times) w hits admitted (rise le past r) t p =
    let start = window_start now in
    let now_tracks = kept-Tracks w start hits admitted le t in
    elim (Bool-cases (leb_ℤ rpm (pos (length (kept start hits))))) [
      | inl full ↦
          let rest =
            limit_run-Paced_from rpm times start (kept start hits) admitted r now_tracks p in
          ground (arith, full, rest)
      | inr free ↦
          let fits =
            room rpm now hits admitted past (Tracks-later w start hits admitted le t) free in
          let rest =
            limit_run-Paced_from rpm times start (kept start hits ++ (now ∷ []))
              (admitted ++ (now ∷ [])) r
              (append-Tracks start now (kept start hits) admitted now_tracks)
              (admit now p fits refl) in
          ground (arith, free, rest)
    ]

-- From an empty bucket, with requests whose windows neither run backwards nor wrap, every admitted request
-- found at most `rpm` admitted requests, itself among them, in the minute that ended with it.
pub limit_run-Paced :
    (rpm : ℤ) (times : List ℤ) (w : ℤ) → Rising w times → Paced rpm (limit_run rpm times [] []).1
unfolding Tracks
limit_run-Paced rpm times w r = limit_run-Paced_from rpm times w [] [] r (λ v h. refl) none_yet
