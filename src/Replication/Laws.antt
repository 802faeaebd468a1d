-- ===== src/Replication/Laws.antt =====
-- What the replication state says of the nodes' file counts, and where the arithmetic wraps.
use hyperbytedb_operator.Prelude.{
  ℕ, ◌-◌, ◌*◌, ◌/◌, ◌^◌, ◌≤◌, ◌<◌, ◌≡◌, refl, ap, ◌∙◌, ◌&&◌, inl, inr, Bool, true, false, List, [],
  ◌∷◌, map, ltb, if◌then◌else◌, Bool-cases, Result, ok, err, arith, All, Any,
}
use hyperbytedb_operator.Prelude.Int.{pos, negsuc, ltb_ℤ}
use hyperbytedb_operator.Client.{SyncManifest, total_parquet_files}
use hyperbytedb_operator.Members.{MemberStatus}
use hyperbytedb_operator.Ordinals.{ordinals}
use hyperbytedb_operator.Replication.{
  ReplicationState, unknown, healthy, diverged, lagging, int32_of, div10, file_counts, max_files,
  min_files, grade, grade_counts, monitor_replication_health,
}

-- The file counts of the hosts that answer, before the conversion to int32.
abbrev pub totals : (ℕ → Result SyncManifest) → List ℕ → List ℕ
totals get [] = []
totals get (i ∷ is) = elim (get i) [
  | ok m ↦ total_parquet_files m ∷ totals get is
  | err _ ↦ totals get is
]

file_counts-totals :
    (get : ℕ → Result SyncManifest) (is : List ℕ)
    → file_counts get is ≡ map int32_of (totals get is)
unfolding file_counts
file_counts-totals get [] = refl
file_counts-totals get (i ∷ is) = go (get i) (file_counts-totals get is)
  where
    go :
        (r : Result SyncManifest)
        → file_counts get is ≡ map int32_of (totals get is)
        → (elim r [
          | ok m ↦ int32_of (total_parquet_files m) ∷ file_counts get is
          | err _ ↦ file_counts get is
        ])
          ≡ map int32_of
              (elim r [ ok m ↦ total_parquet_files m ∷ totals get is | err _ ↦ totals get is ])
    go (ok m) ih = ap (λ cs. int32_of (total_parquet_files m) ∷ cs) ih
    go (err e) ih = ih

int32_of-pos : (n : ℕ) → n < 2 ^ 31 → int32_of n ≡ pos n
unfolding int32_of
int32_of-pos n h = ground arith

int32_of-map : (cs : List ℕ) → All (λ c. c < 2 ^ 28) cs → map int32_of cs ≡ map pos cs
int32_of-map [] h = refl
int32_of-map (c ∷ cs) h = rw (int32_of-pos c (omega arith), int32_of-map cs h.1)

-- `m` is the greatest, or the least, of the counts.
pub record IsGreatest (counts : List ℕ) (m : ℕ) : Type 0 where
  pub bound : All (λ c. c ≤ m) counts
  pub member : Any (λ c. c ≡ m) counts

pub record IsLeast (counts : List ℕ) (m : ℕ) : Type 0 where
  pub bound : All (λ c. m ≤ c) counts
  pub member : Any (λ c. c ≡ m) counts

-- What a state says of the least and the greatest count: the division is that of whole numbers.
abbrev pub Verdict : ReplicationState → ℕ → ℕ → Type 0
Verdict unknown least greatest = ⊥
Verdict diverged least greatest = least < greatest / 2
Verdict lagging least greatest = (greatest / 2 ≤ least) × (least < greatest * 8 / 10)
Verdict healthy least greatest = (greatest / 2 ≤ least) × (greatest * 8 / 10 ≤ least)

pub record IsGraded (counts : List ℕ) (state : ReplicationState) : Type 0 where
  pub least : ℕ
  pub greatest : ℕ
  pub is_least : IsLeast counts least
  pub is_greatest : IsGreatest counts greatest
  pub verdict : Verdict state least greatest

-- Two counts are compared, and fewer say nothing.
abbrev pub Reports : List ℕ → ReplicationState → Type 0
Reports [] state = state ≡ unknown
Reports (c ∷ []) state = state ≡ unknown
Reports (c ∷ d ∷ cs) state = IsGraded (c ∷ d ∷ cs) state

-- The loops over counts that are not negative.
greatest : ℕ → List ℕ → ℕ
greatest acc [] = acc
greatest acc (c ∷ cs) = greatest (if ltb acc c then c else acc) cs

least : ℕ → List ℕ → ℕ
least acc [] = acc
least acc (c ∷ cs) = least (if ltb c acc then c else acc) cs

larger :
    (c d : ℕ) → (if ltb_ℤ (pos c) (pos d) then pos d else pos c) ≡ pos (if ltb c d then d else c)
larger c d = ground arith

max_files-greatest : (c : ℕ) (cs : List ℕ) → max_files (pos c) (map pos cs) ≡ pos (greatest c cs)
unfolding max_files greatest
max_files-greatest c [] = refl
max_files-greatest c (d ∷ cs) =
    ap (λ a. max_files a (map pos cs)) (larger c d)
    ∙ max_files-greatest (if ltb c d then d else c) cs

smaller :
    (c d : ℕ) → (if ltb_ℤ (pos d) (pos c) then pos d else pos c) ≡ pos (if ltb d c then d else c)
smaller c d = ground arith

min_files-least : (c : ℕ) (cs : List ℕ) → min_files (pos c) (map pos cs) ≡ pos (least c cs)
unfolding min_files least
min_files-least c [] = refl
min_files-least c (d ∷ cs) =
    ap (λ a. min_files a (map pos cs)) (smaller c d) ∙ min_files-least (if ltb d c then d else c) cs

greatest-IsGreatest : (c : ℕ) (cs : List ℕ) → IsGreatest (c ∷ cs) (greatest c cs)
unfolding greatest
greatest-IsGreatest c [] = record { bound = (omega arith, tt); member = inl refl }
greatest-IsGreatest c (d ∷ cs) = elim (Bool-cases (ltb c d)) [
  | inl b ↦
      let r = greatest-IsGreatest d cs in
      rw b (record { bound = (ground (arith, r.bound), r.bound); member = inr r.member })
  | inr b ↦
      let r = greatest-IsGreatest c cs in
      rw b (record {
        bound = (r.bound.0, (ground (arith, r.bound), r.bound.1));
        member = elim r.member [ inl e ↦ inl e | inr a ↦ inr (inr a) ];
      })
]

least-IsLeast : (c : ℕ) (cs : List ℕ) → IsLeast (c ∷ cs) (least c cs)
unfolding least
least-IsLeast c [] = record { bound = (omega arith, tt); member = inl refl }
least-IsLeast c (d ∷ cs) = elim (Bool-cases (ltb d c)) [
  | inl b ↦
      let r = least-IsLeast d cs in
      rw b (record { bound = (ground (arith, r.bound), r.bound); member = inr r.member })
  | inr b ↦
      let r = least-IsLeast c cs in
      rw b (record {
        bound = (r.bound.0, (ground (arith, r.bound), r.bound.1));
        member = elim r.member [ inl e ↦ inl e | inr a ↦ inr (inr a) ];
      })
]

grade-rest :
    (m n : ℕ)
    → (ltb_ℤ (pos 0) (pos n) && ltb_ℤ (pos m) (pos (n / 2))) ≡ false
    → Verdict
        (if ltb_ℤ (pos 0) (pos n) && ltb_ℤ (pos m) (pos (n * 8 / 10)) then lagging else healthy)
        m
        n
grade-rest m n h = elim (Bool-cases (ltb_ℤ (pos 0) (pos n) && ltb_ℤ (pos m) (pos (n * 8 / 10)))) [
  | inl b ↦ rw b (ground arith, ground arith)
  | inr b ↦ rw b (ground arith, ground arith)
]

grade-Verdict : (m n : ℕ) → n < 2 ^ 28 → Verdict (grade (pos m) (pos n)) m n
unfolding grade
grade-Verdict m n h =
    let wide : int32_of (n * 8) ≡ pos (n * 8) = int32_of-pos (n * 8) (omega arith) in
    elim (Bool-cases (ltb_ℤ (pos 0) (pos n) && ltb_ℤ (pos m) (pos (n / 2)))) [
      | inl b ↦ rw b (ground arith)
      | inr b ↦ rw (b, wide, div10) (grade-rest m n b)
    ]

greatest-All : (P : ℕ → Type 0) (c : ℕ) (cs : List ℕ) → P c → All P cs → P (greatest c cs)
unfolding greatest
greatest-All P c [] h k = h
greatest-All P c (d ∷ cs) h k = elim (Bool-cases (ltb c d)) [
  | inl b ↦ rw b (greatest-All P d cs k.0 k.1)
  | inr b ↦ rw b (greatest-All P c cs h k.1)
]

grade_counts-Reports :
    (counts : List ℕ)
    → All (λ c. c < 2 ^ 28) counts
    → Reports counts (grade_counts (map pos counts))
unfolding grade_counts
grade_counts-Reports [] h = refl
grade_counts-Reports (c ∷ []) h = refl
grade_counts-Reports (c ∷ d ∷ cs) h =
    let low = least c (d ∷ cs) in
    let high = greatest c (d ∷ cs) in
    rw (min_files-least c (d ∷ cs), max_files-greatest c (d ∷ cs))
      (record {
        least = low;
        greatest = high;
        is_least = least-IsLeast c (d ∷ cs);
        is_greatest = greatest-IsGreatest c (d ∷ cs);
        verdict = grade-Verdict low high (greatest-All (λ n. n < 2 ^ 28) c (d ∷ cs) h.0 h.1);
      })

-- While no node that answers has 2^28 Parquet files or more, the replication state is Unknown if
-- fewer than two nodes answer. Else it compares the least count with the half and the eight tenths of
-- the greatest, each rounded down to a whole number: Diverged is below the half, Lagging is from there
-- to below the eight tenths, and Healthy is at or above both. (So 0 files beside 1 are Healthy.)
pub monitor_replication_health-Reports :
    (get : ℕ → Result SyncManifest) (replicas : ℕ) (members : List MemberStatus)
    → All (λ c. c < 2 ^ 28) (totals get (ordinals replicas))
    → Reports (totals get (ordinals replicas)) (monitor_replication_health get replicas members).0
unfolding monitor_replication_health
monitor_replication_health-Reports get replicas members h =
    let counts = totals get (ordinals replicas) in
    let e : file_counts get (ordinals replicas) ≡ map pos counts =
      file_counts-totals get (ordinals replicas) ∙ int32_of-map counts h in
    rw e (grade_counts-Reports counts h)

int32_of-wraps :
    (max : ℕ) → 2 ^ 28 ≤ max → max < 2 ^ 29 → int32_of (max * 8) ≡ negsuc (2 ^ 32 - 1 - max * 8)
unfolding int32_of
int32_of-wraps max h l = ground arith

div10-below : (n min : ℕ) → ltb_ℤ (pos min) (div10 (negsuc n)) ≡ false
unfolding div10
div10-below n min = ground arith

and-false : (a : Bool) → (a && false) ≡ false
and-false true = refl
and-false false = refl

-- From 2^28 files on the product by 8 is negative as an int32: as long as the greatest count is
-- below 2^29, any least count of at least its half is graded healthy, however far behind it is.
pub grade-wraps :
    (min max : ℕ)
    → 2 ^ 28 ≤ max
    → max < 2 ^ 29
    → max / 2 ≤ min
    → grade (pos min) (pos max) ≡ healthy
unfolding grade
grade-wraps min max h l k =
    elim (Bool-cases (ltb_ℤ (pos 0) (pos max) && ltb_ℤ (pos min) (pos (max / 2)))) [
      | inl b ↦ absurd (ground arith)
      | inr b ↦
          let neg : int32_of (max * 8) ≡ negsuc (2 ^ 32 - 1 - max * 8) = int32_of-wraps max h l in
          rw (b, neg, div10-below (2 ^ 32 - 1 - max * 8) min, and-false (ltb_ℤ (pos 0) (pos max)))
            refl
    ]
