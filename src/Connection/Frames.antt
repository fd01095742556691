-- ===== src/Connection/Frames.antt =====
-- The stream of packages that a client sends: each message behind its length in two bytes. However
-- TCP cuts the stream, a prefix of it is some whole packages and a rest that is not ready.
use play_frame.Common.{
  ℕ, ◌+◌, ◌*◌, ◌/◌, ◌%◌, ◌≤◌, ◌<◌, ◌≡◌, refl, sym, ap, ◌∙◌, List, [], ◌∷◌, ◌++◌, length,
  length-append, append_assoc, arith, inl, inr, ◌⊎◌, All,
}

-- Messages that the reader takes at once: a package of at least 5 bytes that the buffer holds.
pub record IsMessage (message : List ℕ) : Type 0 where
  pub low : 3 ≤ length message
  pub high : length message + 2 ≤ 10240

abbrev pub framed : List ℕ → List ℕ
framed message = (length message + 2) / 256 ∷ (length message + 2) % 256 ∷ message

abbrev pub stream : List (List ℕ) → List ℕ
stream [] = []
stream (m ∷ ms) = framed m ++ stream ms

-- What the two bytes in front say.
abbrev pub announced : List ℕ → ℕ
announced [] = 0
announced (a ∷ []) = a * 256
announced (a ∷ b ∷ rest) = a * 256 + b

-- No whole package is in front.
abbrev pub NotReady : List ℕ → Type 0
NotReady bytes = (length bytes ≤ 4) ⊎ (length bytes < announced bytes)

-- The package of the message has at most `bound` bytes.
abbrev pub IsWithin : ℕ → List ℕ → Type 0
IsWithin bound message = length message + 2 ≤ bound

-- The messages of a prefix, and the rest.
pub record Cut (ms : List (List ℕ)) (prefix suffix : List ℕ) : Type 0 where
  pub whole : List (List ℕ)
  pub later : List (List ℕ)
  pub part : List ℕ
  pub split : ms ≡ whole ++ later
  pub front : prefix ≡ stream whole ++ part
  pub back : part ++ suffix ≡ stream later
  pub waiting : NotReady part
  pub brief : (bound : ℕ) → 0 < bound → All (IsWithin bound) ms → length part < bound

-- A common list, cut at two places.
compare_cuts :
    (a b c d : List ℕ)
    → a ++ b ≡ c ++ d
    → ((e : List ℕ) × (a ≡ c ++ e) × (e ++ b ≡ d))
      ⊎ ((e : List ℕ) × (length a < length c) × (c ≡ a ++ e) × (b ≡ e ++ d))
compare_cuts a b [] d h = inl (a, refl, h)
compare_cuts [] b (y ∷ c) d h = inr (y ∷ c, omega arith, refl, h)
compare_cuts (x ∷ a) b (y ∷ c) d h =
    let head : x ≡ y = cc in
    let tail : a ++ b ≡ c ++ d = cc in
    elim (compare_cuts a b c d tail) [
      | inl (e, p, q) ↦ inl (e, cc, q)
      | inr (e, less, p, q) ↦ inr (e, omega (arith, less), cc, q)
    ]

-- A proper prefix of a package is not ready.
short_waiting :
    (a m e : List ℕ) → IsMessage m → length a < length (framed m) → framed m ≡ a ++ e → NotReady a
short_waiting [] m e i less h = inl (omega arith)
short_waiting (x ∷ []) m e i less h = inl (omega arith)
short_waiting (x ∷ y ∷ a) m e i less h =
    let p : x ≡ (length m + 2) / 256 = cc in
    let q : y ≡ (length m + 2) % 256 = cc in inr (omega (arith, p, q, less))

pub stream-Cut :
    (ms : List (List ℕ)) (prefix suffix : List ℕ)
    → All IsMessage ms
    → prefix ++ suffix ≡ stream ms
    → Cut ms prefix suffix
stream-Cut [] [] suffix all h = record {
  whole = [];
  later = [];
  part = [];
  split = refl;
  front = refl;
  back = h;
  waiting = inl (omega arith);
  brief = λ bound some_room within. some_room;
}
stream-Cut [] (x ∷ prefix) suffix all h = absurd (cc)
stream-Cut (m ∷ ms) prefix suffix (i, all) h =
    elim (compare_cuts prefix suffix (framed m) (stream ms) h) [
      | inl (e, p, q) ↦
          let c = stream-Cut ms e suffix all q in
          record {
            whole = m ∷ c.whole;
            later = c.later;
            part = c.part;
            split = ap (λ (l : List (List ℕ)). m ∷ l) c.split;
            front =
                p
                ∙ ap (λ (l : List ℕ). framed m ++ l) c.front
                ∙ sym (append_assoc (framed m) (stream c.whole) c.part);
            back = c.back;
            waiting = c.waiting;
            brief = λ bound room (_, within). c.brief bound room within;
          }
      | inr (e, less, p, q) ↦ record {
        whole = [];
        later = m ∷ ms;
        part = prefix;
        split = refl;
        front = refl;
        back = h;
        waiting = short_waiting prefix m e i less p;
        brief = λ bound room (first, within). omega (arith, less, first);
      }
    ]

-- With a whole package in front, the rest is none.
pub NotReady-stream :
    (part : List ℕ) (ms : List (List ℕ)) (rest : List ℕ)
    → All IsMessage ms
    → NotReady part
    → part ≡ stream ms ++ rest
    → ms ≡ []
NotReady-stream part [] rest all waiting e = refl
NotReady-stream part (m ∷ ms) rest (i, all) waiting e =
    let tail = stream ms ++ rest in
    let e' : part ≡ framed m ++ tail = e ∙ append_assoc (framed m) (stream ms) rest in
    let a : announced part ≡ (length m + 2) / 256 * 256 + (length m + 2) % 256 = ap announced e' in
    let n = ap length e' in
    let l = length-append m tail in
    elim waiting [
      | inl short ↦ absurd (omega (arith, short, n, l, i.low))
      | inr less ↦ absurd (omega (arith, less, n, l, a))
    ]
