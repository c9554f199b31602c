-- ===== src/Proto/RoundTrip.antt =====
-- Frames become a log entry on the writer and frames again on every replica.
use mathlib.Core.List.{append-nil, append_assoc}
use literaft.Base.{
  ℕ, ◌+◌, ◌-◌, ◌<◌, ◌≡◌, refl, sym, ap, ◌∙◌, List, [], ◌∷◌, ◌++◌, ltb, ◌==◌, if◌then◌else◌, length,
  arith, map, true, false, inl, inr,
}
use literaft.Base.Bytes.{zeros, u32_mod, big, get32-put32, get32-put32_ne, get32-zeros}
use literaft.Wal.Frame.{Frame, pg_no, n_truncate, set_pg_no, set_n_truncate}
use literaft.Proto.{Page, Transaction, add_pages, new_transaction, frames_from, frames}

-- What a frame says apart from the salts and checksums, which every node computes for itself.
pub record Redo : Type 0 where
  pub page_no : ℕ
  pub truncate : ℕ
  pub image : List ℕ

abbrev pub redo : Frame → Redo
redo f = record { page_no = pg_no f.header; truncate = n_truncate f.header; image = f.image }

abbrev page_redo : ℕ → Page → Redo
page_redo n p = record { page_no = p.page_no; truncate = n; image = p.image }

-- A page's redo record; the last page of the transaction carries the commit size.
abbrev pub stamped : ℕ → List Page → List Redo
stamped n [] = []
stamped n (p ∷ []) = page_redo n p ∷ []
stamped n (p ∷ q ∷ ps) = page_redo 0 p ∷ stamped n (q ∷ ps)

abbrev pub All {ℓ κ} : {A : Type ℓ} → (A → Type κ) → List A → Type κ
All P [] = Unit
All P (x ∷ xs) = P x × All P xs

pub record FitsPage (p : Page) : Type 0 where
  pub page_fits : p.page_no < u32_mod

plain_header :
    (p : ℕ) → p < u32_mod → (pg_no (set_pg_no zeros p) ≡ p) × (n_truncate (set_pg_no zeros p) ≡ 0)
unfolding pg_no set_pg_no n_truncate
plain_header p h = (
  get32-put32 big zeros 0 p h,
  get32-put32_ne big big zeros 0 4 p (inl (omega arith)) ∙ get32-zeros big 4,
)

last_header :
    (p n : ℕ)
    → p < u32_mod
    → n < u32_mod
    → (pg_no (set_n_truncate (set_pg_no zeros p) n) ≡ p)
      × (n_truncate (set_n_truncate (set_pg_no zeros p) n) ≡ n)
unfolding pg_no set_pg_no n_truncate set_n_truncate
last_header p n hp hn = (
  get32-put32_ne big big (set_pg_no zeros p) 4 0 n (inr (omega arith))
      ∙ get32-put32 big zeros 0 p hp,
  get32-put32 big (set_pg_no zeros p) 4 n hn,
)

redo_path :
    {p q : Redo} → p.page_no ≡ q.page_no → p.truncate ≡ q.truncate → p.image ≡ q.image → p ≡ q
redo_path a b c = λ i. record { page_no = a i; truncate = b i; image = c i }

frames_from_lem :
    (count n i : ℕ) (ps : List Page)
    → i + length ps ≡ count
    → n < u32_mod
    → All FitsPage ps
    → map redo (frames_from count n i ps) ≡ stamped n ps
unfolding frames_from
frames_from_lem count n i [] e hn fits = refl
frames_from_lem count n i (p ∷ []) e hn fits =
    let last : (i == count - 1) ≡ true = ground arith in
    let (a, b) = last_header p.page_no n fits.0.page_fits hn in
    rw last (ap (λ r. r ∷ []) (redo_path a b refl))
frames_from_lem count n i (p ∷ q ∷ ps) e hn fits =
    let more : (i == count - 1) ≡ false = ground arith in
    let (a, b) = plain_header p.page_no fits.0.page_fits in
    let rest = frames_from_lem count n (i + 1) (q ∷ ps) (omega arith) hn fits.1 in
    rw more (λ j. redo_path {q = page_redo 0 p} a b refl j ∷ rest j)

abbrev redo_page : Redo → Page
redo_page r = record { page_no = r.page_no; image = r.image }

-- The commit size that the loop ends with: that of the last frame that has one.
abbrev last_truncate : ℕ → List Redo → ℕ
last_truncate n [] = n
last_truncate n (r ∷ rs) = last_truncate (if ltb 0 r.truncate then r.truncate else n) rs

add_pages_lem :
    (fs : List Frame) (tx : Transaction)
    → add_pages fs tx ≡ record {
      pages = tx.pages ++ map redo_page (map redo fs);
      truncate = last_truncate tx.truncate (map redo fs);
    }
unfolding add_pages
add_pages_lem [] tx = λ i. record { pages = sym (append-nil tx.pages) i; truncate = tx.truncate }
add_pages_lem (f ∷ fs) tx =
    let rest = map redo_page (map redo fs) in
    add_pages_lem fs _ ∙ λ i. record {
      pages = append_assoc tx.pages (redo_page (redo f) ∷ []) rest i;
      truncate = last_truncate tx.truncate (redo f ∷ map redo fs);
    }

stamped-redo_page : (n : ℕ) (ps : List Page) → map redo_page (stamped n ps) ≡ ps
stamped-redo_page n [] = refl
stamped-redo_page n (p ∷ []) = refl
stamped-redo_page n (p ∷ q ∷ ps) = ap (λ t. p ∷ t) (stamped-redo_page n (q ∷ ps))

stamped-last_truncate :
    (n : ℕ) (p : Page) (ps : List Page) → last_truncate 0 (stamped n (p ∷ ps)) ≡ n
stamped-last_truncate n p [] = ground arith
stamped-last_truncate n p (q ∷ ps) = stamped-last_truncate n q ps

-- The frames of one transaction as the gated WAL file captures them: only the last one commits.
abbrev pub IsCaptured : List Frame → Type 0
IsCaptured [] = ⊥
IsCaptured (f ∷ []) = 0 < n_truncate f.header
IsCaptured (f ∷ g ∷ fs) = (n_truncate f.header ≡ 0) × IsCaptured (g ∷ fs)

stamped-captured :
    (fs : List Frame) (n : ℕ)
    → IsCaptured fs
    → stamped (last_truncate n (map redo fs)) (map redo_page (map redo fs)) ≡ map redo fs
stamped-captured [] n h = absurd h
stamped-captured (f ∷ []) n h = ap (λ r. r ∷ []) (redo_path refl (ground arith) refl)
stamped-captured (f ∷ g ∷ fs) n h =
    let rest =
      stamped-captured (g ∷ fs) (if ltb 0 (n_truncate f.header) then n_truncate f.header else n)
        h.1 in
    λ i.
      redo_path {p = page_redo 0 (redo_page (redo f))} {q = redo f} refl (sym h.0) refl i ∷ rest i

abbrev FitsRedo : Redo → Type 0
FitsRedo r = (r.page_no < u32_mod) × (r.truncate < u32_mod)

-- Header fields are 32 bits wide.
abbrev pub FitsFrame : Frame → Type 0
FitsFrame f = FitsRedo (redo f)

pages_fit : (fs : List Frame) → All FitsFrame fs → All FitsPage (map redo_page (map redo fs))
pages_fit [] h = tt
pages_fit (f ∷ fs) h = (record { page_fits = h.0.0 }, pages_fit fs h.1)

last_truncate-lt :
    (fs : List Frame) (n : ℕ)
    → n < u32_mod
    → All FitsFrame fs
    → last_truncate n (map redo fs) < u32_mod
last_truncate-lt [] n hn h = hn
last_truncate-lt (f ∷ fs) n hn h = last_truncate-lt fs _ (ground arith) h.1

-- A captured transaction arrives whole: the frames rebuilt from its log entry have the page
-- numbers, the images and the commit mark of the frames that the writer captured, in order.
pub frames-new_transaction :
    (fs : List Frame)
    → IsCaptured fs
    → All FitsFrame fs
    → map redo (frames (new_transaction fs)) ≡ map redo fs
unfolding frames new_transaction
frames-new_transaction fs captured fits =
    rw (add_pages_lem fs (record { pages = []; truncate = 0 })) (
      frames_from_lem _ _ 0 _ (omega arith) (last_truncate-lt fs 0 (omega arith) fits)
        (pages_fit fs fits)
      ∙ stamped-captured fs 0 captured)

-- And back: a log entry's transaction with at least one page is rebuilt from its own frames.
pub new_transaction-frames :
    (p : Page) (ps : List Page) (n : ℕ)
    → n < u32_mod
    → All FitsPage (p ∷ ps)
    → new_transaction (frames (record { pages = p ∷ ps; truncate = n }))
      ≡ record { pages = p ∷ ps; truncate = n }
unfolding frames new_transaction
new_transaction-frames p ps n hn fits =
    let same = frames_from_lem (length (p ∷ ps)) n 0 (p ∷ ps) (omega arith) hn fits in
    add_pages_lem (frames_from (length (p ∷ ps)) n 0 (p ∷ ps)) (record { pages = []; truncate = 0 })
    ∙ λ i. record {
      pages = (ap (map redo_page) same ∙ stamped-redo_page n (p ∷ ps)) i;
      truncate = (ap (last_truncate 0) same ∙ stamped-last_truncate n p ps) i;
    }
