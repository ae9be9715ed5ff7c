-- ===== src/Rpc/Pages.antt =====
-- The loop over the pages of a search (GetAllJWKs, GetAllCHNGSTK of tendermintrpc/rpc.go) ends.
use chainpoint_core.Prelude.{
  ℕ, zero, suc, ◌+◌, ◌/◌, ◌≤◌, ◌<◌, Str, List, [], ◌++◌, append_assoc, append-nil, true, false,
  some, ◌≡◌, refl, ap, sym, ◌∙◌, leb, arith,
}
use chainpoint_core.Types.{Tx}
use chainpoint_core.Externals.{Externals}
use chainpoint_core.Rpc.{TmClient, ResultTxSearch, Paged, txs_of_page, all_pages}

module _ (client : TmClient) (ext : Externals) (query order : Str) where
  -- The transactions of `n` pages from the page `i` on.
  abbrev pub txs_of_pages : (ℕ → ResultTxSearch) → ℕ → ℕ → List Tx
  txs_of_pages page i zero = []
  txs_of_pages page i (suc n) = txs_of_page client ext (page i) ++ txs_of_pages page (i + 1) n

  round :
      (fuel i end_page : ℕ) (txs : List Tx) (r : ResultTxSearch)
      → leb i end_page ≡ true
      → client.tx_search query i 100 order ≡ some r
      → all_pages client ext (suc fuel) query order i end_page txs
        ≡ all_pages client ext fuel query order
            (i + 1)
            (r.total_count / 100 + 1)
            (txs ++ txs_of_page client ext r)
  unfolding all_pages
  round fuel i end_page txs r l e = rw (all_pages, l, e) refl

  last_round :
      (fuel i end_page : ℕ) (txs : List Tx)
      → leb i end_page ≡ false
      → all_pages client ext (suc fuel) query order i end_page txs ≡ Paged.found txs
  unfolding all_pages
  last_round fuel i end_page txs l = rw (all_pages, l) refl

  module _ (n : ℕ) (page : ℕ → ResultTxSearch)
      (answers : (i : ℕ)
        → 1 ≤ i
        → i ≤ n / 100 + 1
        → (client.tx_search query i 100 order ≡ some (page i)) × ((page i).total_count ≡ n)) where
    pages_from :
        (k fuel i : ℕ) (txs : List Tx)
        → i + k ≡ n / 100 + 2
        → 1 ≤ i
        → k < fuel
        → all_pages client ext fuel query order i (n / 100 + 1) txs
          ≡ Paged.found (txs ++ txs_of_pages page i k)
    pages_from k zero i txs e l f = absurd (omega arith)
    pages_from zero (suc fuel) i txs e l f =
        last_round fuel i (n / 100 + 1) txs (ground arith) ∙ ap Paged.found (sym (append-nil txs))
    pages_from (suc k) (suc fuel) i txs e l f =
        let (answer, total) = answers i l (omega arith) in
        let now = txs_of_page client ext (page i) in
        round fuel i (n / 100 + 1) txs (page i) (ground arith) answer
        ∙ ap (λ t. all_pages client ext fuel query order (i + 1) (t / 100 + 1) (txs ++ now)) total
        ∙ pages_from k fuel (i + 1) (txs ++ now) (omega arith) (omega arith) (omega arith)
        ∙ ap Paged.found (append_assoc txs now (txs_of_pages page (i + 1) k))

    -- When the client answers the pages from 1 to n / 100 + 1, each with the total count `n`, the loop
    -- with fuel for one round more than that ends, and finds the decoded transactions of exactly
    -- these pages, in order, whatever of them fail to decode left out.
    pub all_pages-found :
        (fuel : ℕ)
        → n / 100 + 2 ≤ fuel
        → all_pages client ext fuel query order 1 2 []
          ≡ Paged.found (txs_of_pages page 1 (n / 100 + 1))
    all_pages-found zero f = absurd (omega arith)
    all_pages-found (suc fuel) f =
        let (answer, total) = answers 1 (omega arith) (omega arith) in
        let now = txs_of_page client ext (page 1) in
        let one_more : n / 100 + 1 ≡ suc (n / 100) = omega arith in
        let more : txs_of_pages page 1 (n / 100 + 1) ≡ now ++ txs_of_pages page 2 (n / 100) =
          ap (txs_of_pages page 1) one_more in
        round fuel 1 2 [] (page 1) refl answer
        ∙ ap (λ t. all_pages client ext fuel query order 2 (t / 100 + 1) now) total
        ∙ pages_from (n / 100) fuel 2 now (omega arith) (omega arith) (omega arith)
        ∙ ap Paged.found (sym more)
