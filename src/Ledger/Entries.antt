-- ===== src/Ledger/Entries.antt =====
-- A ledger shows the amounts of the UTXOs at the time of its request.
use ibet_prime.Base.{
  ℕ, ◌≡◌, refl, sym, ap, ◌∙◌, ◌≢◌, inl, inr, Bool, true, ◌==◌, ◌&&◌, List, [], ◌∷◌, ◌++◌, map,
  Option, none, some, arith, select, first, All, Option-cases, Bool-cases, sum_of,
}
use ibet_prime.Chain.{Address}
use ibet_prime.Tokens.{Token, is_succeeded}
use ibet_prime.Utxo.Table.{Utxo}
use ibet_prime.Ledger.Tables.{
  LedgerDataType, LedgerTemplate, LedgerDetailsTemplate, LedgerCreationRequestData, IdxPersonalInfo,
  Office,
}
use ibet_prime.Ledger.Request.{
  LedgerTables, distinct_sources, input_dataset, input_datasets, flush_rows, is_storable,
  request_ledger_creation,
}
use ibet_prime.Ledger.Finalize.{is_unset, info_of, sync_rows, details_of}
use ibet_prime.Ledger.Sums.{
  Choice, holding_amount, row_amount, utxo_amount, sum_of-dataset_from_ibetfin,
}
use ibet_prime.Ledger.Sources.{
  Source, is_for, chosen_amount-append, has_key_of, among, distinct_sources-among,
  distinct_sources-IsApart, amount-input_datasets,
}

flush_rows-eq :
    (rows stored : List LedgerCreationRequestData) → flush_rows rows ≡ some stored → stored ≡ rows
unfolding flush_rows
flush_rows-eq [] stored h = cc
flush_rows-eq (r ∷ rows) stored h = elim (Option-cases (flush_rows rows)) [
  | inl n ↦ cc (rw (n, flush_rows) at h)
  | inr (rest, e) ↦
      let ih : rest ≡ rows = flush_rows-eq rows rest e in
      let fits =
        is_storable r.holding.amount
        && is_storable r.holding.price
        && is_storable r.holding.balance in
      elim (Bool-cases fits) [
        | inl ok ↦
            let same : r ∷ rest ≡ stored = cc (rw (e, ok, flush_rows) at h) in
            sym same ∙ ap (λ x. r ∷ x) ih
        | inr over ↦ cc (rw (e, over, flush_rows) at h)
      ]
]

-- Setting the personal information of a request's rows leaves their amounts.
sync_rows-amount :
    (infos : List IdxPersonalInfo) (issuer : Address) (w : Choice) (id : ℕ) (p : Source)
    (rows : List LedgerCreationRequestData)
    → sum_of (row_amount w) (select (is_for id p) (sync_rows infos id issuer rows).0)
      ≡ sum_of (row_amount w) (select (is_for id p) rows)
unfolding sync_rows
sync_rows-amount infos issuer w id p [] = refl
sync_rows-amount infos issuer w id p (r ∷ rows) =
    let ih = sync_rows-amount infos issuer w id p rows in
    elim (Bool-cases (is_unset id issuer r)) [
      | inl unset ↦ elim (Option-cases (info_of infos issuer r)) [
        | inl lost ↦ rw (unset, lost) (ground (arith, ih))
        | inr (i, found) ↦ rw (unset, found) (ground (arith, ih))
      ]
      | inr set ↦ rw set (ground (arith, ih))
    ]

-- Rows of other requests only.
amount-fresh :
    (w : Choice) (id : ℕ) (p : Source) (rows : List LedgerCreationRequestData)
    → All (λ r. r.request_id ≢ id) rows
    → sum_of (row_amount w) (select (is_for id p) rows) ≡ 0
amount-fresh w id p [] h = refl
amount-fresh w id p (r ∷ rows) (h, hs) = ground (arith, h, amount-fresh w id p rows hs)

holdings-amount :
    (w : Choice) (rows : List LedgerCreationRequestData)
    → sum_of (holding_amount w) (map (λ (r : LedgerCreationRequestData). r.holding) rows)
      ≡ sum_of (row_amount w) rows
holdings-amount w [] = refl
holdings-amount w (r ∷ rows) = omega (arith, holdings-amount w rows)

unmade : (d d' : LedgerTables) → some d ≡ some d' → d'.next_id ≡ d.next_id
unmade d d' h = let e : d ≡ d' = cc in ap (λ (x : LedgerTables). x.next_id) (sym e)

-- What a request that is made adds to the input data.
request_data-rows :
    (o : Office) (tokens : List Token) (a : Address) (us : List Utxo) (d d' : LedgerTables)
    → request_ledger_creation o tokens a us d ≡ some d'
    → d'.next_id ≢ d.next_id
    → d'.request_data
      ≡ d.request_data
        ++ input_datasets o us d.details_data d.next_id a (
            distinct_sources
              (select (λ (t : LedgerDetailsTemplate). t.token_address == a) d.details_templates))
unfolding request_ledger_creation
request_data-rows o tokens a us d d' h made =
    let sources =
      distinct_sources
        (select (λ (t : LedgerDetailsTemplate). t.token_address == a) d.details_templates) in
    let added = input_datasets o us d.details_data d.next_id a sources in
    elim (Option-cases
      (first (λ (t : Token). t.token_address == a && is_succeeded t.token_status) tokens)) [
        | inl n ↦ absurd (made (unmade d d' (rw (n, request_ledger_creation) at h)))
        | inr (token, e) ↦
            let h1 = rw (e, request_ledger_creation) at h in
            elim (Option-cases token.type) [
              | inl n ↦ absurd (made (unmade d d' (rw n at h1)))
              | inr (type, f) ↦
                  let h2 = rw f at h1 in
                  elim (Option-cases
                    (first (λ (t : LedgerTemplate). t.token_address == a) d.templates)) [
                      | inl n ↦ absurd (made (unmade d d' (rw n at h2)))
                      | inr (template, g) ↦
                          let h3 = rw g at h2 in
                          elim (Option-cases (flush_rows added)) [
                            | inl n ↦ cc (rw n at h3)
                            | inr (rows, k) ↦
                                let all : rows ≡ added = flush_rows-eq added rows k in
                                let h4 = rw k at h3 in
                                let stored : d.request_data ++ rows ≡ d'.request_data =
                                  ap
                                    (λ (x : Option LedgerTables). elim x [
                                      | none ↦ []
                                      | some y ↦ y.request_data
                                    ])
                                    h4 in
                                sym stored ∙ ap (λ x. d.request_data ++ x) all
                          ]
                    ]
            ]
      ]

-- Where a request is made for a token, and its input data later gets the personal information that is
-- registered, an entry of the ledger that takes the token's UTXOs shows, for whatever accounts and days
-- are chosen, the amount of the token's UTXOs of these accounts and days at the time of the request.
pub details_of-request_ledger_creation :
    (o : Office) (tokens : List Token) (a : Address) (us : List Utxo) (d d' : LedgerTables)
    (t : LedgerDetailsTemplate) (infos : List IdxPersonalInfo) (issuer : Address)
    (unregistered : Bool) (w : Choice)
    → request_ledger_creation o tokens a us d ≡ some d'
    → d'.next_id ≢ d.next_id
    → All (λ r. r.request_id ≢ d.next_id) d.request_data
    → t.data_type ≡ LedgerDataType.ibet_fin
    → has_key_of
        (t.data_type, t.data_source)
        (select (λ (t : LedgerDetailsTemplate). t.token_address == a) d.details_templates)
      ≡ true
    → sum_of
        (holding_amount w)
        (details_of d.next_id unregistered
          (sync_rows infos d.next_id issuer d'.request_data).0
          t).rows
      ≡ sum_of (utxo_amount o a w) us
unfolding input_dataset
details_of-request_ledger_creation o tokens a us d d' t infos issuer unregistered w h made fresh fin
      listed =
    let id = d.next_id in
    let p : Source = (t.data_type, t.data_source) in
    let templates =
      select (λ (t : LedgerDetailsTemplate). t.token_address == a) d.details_templates in
    let sources = distinct_sources templates in
    let added = input_datasets o us d.details_data id a sources in
    let kept = sync_rows-amount infos issuer w id p d'.request_data in
    let rows : sum_of (row_amount w) (select (is_for id p) d'.request_data)
        ≡ sum_of (row_amount w) (select (is_for id p) (d.request_data ++ added)) =
      ap (λ x. sum_of (row_amount w) (select (is_for id p) x))
        (request_data-rows o tokens a us d d' h made) in
    let parts = chosen_amount-append w (is_for id p) d.request_data added in
    let old = amount-fresh w id p d.request_data fresh in
    let new =
      amount-input_datasets o us d.details_data w id a p sources
        (distinct_sources-IsApart templates) in
    let mine : among p sources ≡ true = distinct_sources-among p templates ∙ listed in
    let own : sum_of (row_amount w) (input_dataset o us d.details_data id a p)
        ≡ sum_of (utxo_amount o a w) us =
      ap (λ y. sum_of (row_amount w) (input_dataset o us d.details_data id a (y, t.data_source)))
        fin
      ∙ sum_of-dataset_from_ibetfin o w id a t.data_source us in
    holdings-amount w (select (is_for id p) (sync_rows infos id issuer d'.request_data).0)
    ∙ kept
    ∙ rows
    ∙ parts
    ∙ ground (arith, old, new, mine, own)
