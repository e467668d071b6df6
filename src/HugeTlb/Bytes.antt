-- ===== src/HugeTlb/Bytes.antt =====
-- The bytes behind a stream's buffers (src/tcp_stream/ent_streaming_hugetlb.rs): a page is what it
-- holds at each offset, and the positions of a cursor go round it.
pub mod Incoming
mod Same
mod Look
pub mod Fifo
pub mod Payload
pub mod Outgoing
pub mod Moves
pub mod Queue
use yaoi.Base.{
  ℕ, zero, suc, ◌+◌, ◌-◌, ◌%◌, ◌≤◌, ◌<◌, ◌≡◌, refl, sym, ap, subst, ◌∙◌, arith, List, [], ◌∷◌, ◌++◌,
  length, Bool, true, false, ◌==◌, if◌then◌else◌,
}
use yaoi.HugeTlb.{page_size}
use yaoi.HugeTlb.Left.{Slice, InBuffer, single, double}

abbrev pub Page : Type 0
Page = ℕ → ℕ

abbrev pub put_byte : Page → ℕ → ℕ → Page
put_byte page pos b i = if i == pos % page_size then b else page i

-- Bytes written from a position on, past the end of the page again from its start.
unfoldable pub put : Page → ℕ → List ℕ → Page
put page pos [] = page
put page pos (b ∷ bs) = put (put_byte page pos b) (pos + 1) bs

-- `n` bytes read from a position on, round the page.
unfoldable pub window : Page → ℕ → ℕ → List ℕ
window page pos zero = []
window page pos (suc n) = page (pos % page_size) ∷ window page (pos + 1) n

-- The bytes of a slice of the page.
unfoldable pub bytes_at : Page → ℕ → ℕ → List ℕ
bytes_at page start zero = []
bytes_at page start (suc n) = page start ∷ bytes_at page (start + 1) n

-- What an orbit reads in the buffer that it is given.
abbrev pub bytes_of : Page → InBuffer → List ℕ
bytes_of page (single a) = bytes_at page a.start a.len
bytes_of page (double a b) = bytes_at page a.start a.len ++ bytes_at page b.start b.len

abbrev pub drop : ℕ → List ℕ → List ℕ
drop zero xs = xs
drop (suc n) [] = []
drop (suc n) (x ∷ xs) = drop n xs

-- A write is not seen at the positions less than a page before its end.
put-before :
    (page : Page) (i pos : ℕ) (bs : List ℕ)
    → i < pos
    → pos + length bs ≤ i + page_size
    → put page pos bs (i % page_size) ≡ page (i % page_size)
unfolding put
put-before page i pos [] h g = refl
put-before page i pos (b ∷ bs) h g =
    let apart : (i % page_size == pos % page_size) ≡ false = ground arith in
    put-before (put_byte page pos b) i (pos + 1) bs (omega arith) (omega arith) ∙ rw apart

pub window-put_before :
    (page : Page) (a n pos : ℕ) (bs : List ℕ)
    → a + n ≤ pos
    → pos + length bs ≤ a + page_size
    → window (put page pos bs) a n ≡ window page a n
unfolding window
window-put_before page a zero pos bs h g = refl
window-put_before page a (suc n) pos bs h g = rw (
  put-before page a pos bs (omega arith) (omega arith),
  window-put_before page (a + 1) n pos bs (omega arith) (omega arith),
)

-- What was written is read back.
pub window-put :
    (page : Page) (pos : ℕ) (bs : List ℕ)
    → length bs ≤ page_size
    → window (put page pos bs) pos (length bs) ≡ bs
unfolding window put
window-put page pos [] h = refl
window-put page pos (b ∷ bs) h =
    let same : (pos % page_size == pos % page_size) ≡ true = ground arith in
    rw (
      put-before (put_byte page pos b) pos (pos + 1) bs (omega arith) (omega arith),
      same,
      window-put (put_byte page pos b) (pos + 1) bs (omega arith),
    )

pub window-append :
    (page : Page) (a m n : ℕ) → window page a (m + n) ≡ window page a m ++ window page (a + m) n
unfolding window
window-append page a zero n =
    let e : a + 0 ≡ a = omega arith in let e' : 0 + n ≡ n = omega arith in rw (e, e')
window-append page a (suc m) n =
    let e : a + 1 + m ≡ a + suc m = omega arith in
    let e_n : suc m + n ≡ suc (m + n) = omega arith in rw (e_n, window-append page (a + 1) m n, e)

pub window-drop :
    (page : Page) (a n k : ℕ) → k ≤ n → window page (a + k) (n - k) ≡ drop k (window page a n)
unfolding window
window-drop page a n zero h =
    let e : a + 0 ≡ a = omega arith in let e' : n - 0 ≡ n = omega arith in rw (e, e')
window-drop page a zero (suc k) h = absurd (omega arith)
window-drop page a (suc n) (suc k) h =
    let e : a + suc k ≡ a + 1 + k = omega arith in
    let e_n : suc n - suc k ≡ n - k = omega arith in
    rw (e, e_n) (window-drop page (a + 1) n k (omega arith))

-- A page further on the same bytes are read.
pub window-round : (page : Page) (a n : ℕ) → window page (a + page_size) n ≡ window page a n
unfolding window
window-round page a zero = refl
window-round page a (suc n) =
    let e : (a + page_size) % page_size ≡ a % page_size = omega arith in
    let e' : a + page_size + 1 ≡ a + 1 + page_size = omega arith in
    rw (e, e', window-round page (a + 1) n)

-- Inside the page a window is a slice.
pub window-bytes_at :
    (page : Page) (a n : ℕ) → a + n ≤ page_size → window page a n ≡ bytes_at page a n
unfolding window bytes_at
window-bytes_at page a zero h = refl
window-bytes_at page a (suc n) h =
    let e : a % page_size ≡ a = omega arith in rw (e, window-bytes_at page (a + 1) n (omega arith))

pub length-window : (page : Page) (a n : ℕ) → length (window page a n) ≡ n
unfolding window
length-window page a zero = refl
length-window page a (suc n) = ap suc (length-window page (a + 1) n)

pub length-drop : (k : ℕ) (xs : List ℕ) → length (drop k xs) ≡ length xs - k
length-drop zero xs = omega arith
length-drop (suc k) [] = omega arith
length-drop (suc k) (x ∷ xs) = length-drop k xs ∙ omega arith

pub drop-append : (k : ℕ) (xs ys : List ℕ) → k ≤ length xs → drop k (xs ++ ys) ≡ drop k xs ++ ys
drop-append zero xs ys h = refl
drop-append (suc k) [] ys h = absurd (omega arith)
drop-append (suc k) (x ∷ xs) ys h = drop-append k xs ys (omega arith)

drop-nil : (k : ℕ) → drop k [] ≡ []
drop-nil zero = refl
drop-nil (suc k) = refl

pub drop-drop : (j k : ℕ) (xs : List ℕ) → drop j (drop k xs) ≡ drop (k + j) xs
drop-drop j zero xs = ap (λ n. drop n xs) (omega arith)
drop-drop j (suc k) [] = drop-nil j ∙ sym (drop-nil (suc k + j))
drop-drop j (suc k) (x ∷ xs) =
    drop-drop j k xs ∙ ap (λ n. drop n (x ∷ xs)) {x = suc (k + j)} (omega arith)
