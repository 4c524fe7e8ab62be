-- ===== src/Plugin/Approve/Paired.antt =====
-- Confirmations and their timers as two maps.
use clawthority.Base.{
  ℕ, ◌+◌, ◌<◌, String, true, false, ◌≡◌, sym, ap, ◌∙◌, inl, inr, none, some, List, arith,
  Bool-cases, nat_eq, eq_of_some, ◌==◌, eq_iff,
}
use clawthority.Base.Maps.{
  get, put, remove, remove_inv, put_inv, get-remove_other, get-put_other, get-put_self, nat_key,
  string_key, nat_eq_iff,
}
use clawthority.Plugin.Approve.{Confirmation, Confirmations}

-- Each confirmation that waits has its own armed timer, and each armed timer is that of a
-- confirmation that waits.
pub record Paired (waiting : List (String × Confirmation)) (timers : List (ℕ × String)) (next : ℕ)
    : Type 0 where
  pub armed : (t : String) (c : Confirmation) → get t waiting ≡ some c → get c.timer timers ≡ some t
  pub owned :
      (n : ℕ) (t : String)
      → get n timers ≡ some t
      → (c : Confirmation) × (get t waiting ≡ some c) × (c.timer ≡ n)
  pub fresh : (n : ℕ) (t : String) → get n timers ≡ some t → n < next

abbrev pub IsPaired : Confirmations → Type 0
IsPaired s = Paired s.waiting s.timers s.next_timer

module _ {waiting : List (String × Confirmation)} {timers : List (ℕ × String)} {next : ℕ}
    (p : Paired waiting timers next) where
  timers_apart :
      (t u : String) (c d : Confirmation)
      → get t waiting ≡ some c
      → get u waiting ≡ some d
      → (t == u) ≡ false
      → nat_eq c.timer d.timer ≡ false
  timers_apart t u c d here there other = elim (Bool-cases (nat_eq c.timer d.timer)) [
    | inr apart ↦ apart
    | inl same ↦
        let e : c.timer ≡ d.timer = (nat_eq_iff c.timer d.timer).0 same in
        let own : get d.timer timers ≡ some t = rw (sym e) (p.armed t c here) in
        let tokens : t ≡ u = eq_of_some (sym own ∙ p.armed u d there) in
        let again : (t == u) ≡ true = (eq_iff t u).1 tokens in ground arith
  ]

  tokens_apart :
      (t u : String) (c d : Confirmation) (n : ℕ)
      → get t waiting ≡ some c
      → get u waiting ≡ some d
      → d.timer ≡ n
      → nat_eq c.timer n ≡ false
      → (t == u) ≡ false
  tokens_apart t u c d n here there own other = elim (Bool-cases (t == u)) [
    | inr apart ↦ apart
    | inl same ↦
        let e : t ≡ u = (eq_iff t u).0 same in
        let here' : get u waiting ≡ some c = rw (sym e) here in
        let one : c ≡ d = eq_of_some (sym here' ∙ there) in
        let again : nat_eq c.timer n ≡ true =
          (nat_eq_iff c.timer n).1 (ap (λ x. x.timer) one ∙ own) in
        ground arith
  ]

  -- A confirmation and its timer go together.
  pub Paired-close :
      (t : String) (c : Confirmation)
      → get t waiting ≡ some c
      → Paired (remove t waiting) (remove c.timer timers) next
  Paired-close t c here = record {
    armed = λ u d g.
        let (other, old) = remove_inv t u d waiting g in
        let apart : nat_eq c.timer d.timer ≡ false = timers_apart t u c d here old other in
        get-remove_other c.timer d.timer timers apart ∙ p.armed u d old;
    owned = λ n u g.
        let (other, old) = remove_inv c.timer n u timers g in
        let (d, there, own) = p.owned n u old in
        let apart : (t == u) ≡ false = tokens_apart t u c d n here there own other in
        (d, get-remove_other t u waiting apart ∙ there, own);
    fresh = λ n u g. p.fresh n u (remove_inv c.timer n u timers g).1;
  }

  free_apart :
      (t u : String) (d : Confirmation)
      → get t waiting ≡ none
      → get u waiting ≡ some d
      → (t == u) ≡ false
  free_apart t u d free there = elim (Bool-cases (t == u)) [
    | inr apart ↦ apart
    | inl same ↦
        let free' : get u waiting ≡ none = rw (sym ((eq_iff t u).0 same)) free in
        let clash : none ≡ some d = sym free' ∙ there in cc
  ]

  -- A new confirmation, for a token that has none.
  pub Paired-open :
      (t : String) (c : Confirmation)
      → get t waiting ≡ none
      → c.timer ≡ next
      → Paired (put t c waiting) (put next t timers) (next + 1)
  Paired-open t c free own = record {
    armed = λ u d g. elim (put_inv t u c d waiting g) [
      | inl (same, e) ↦
          let now : d.timer ≡ next = ap (λ x. x.timer) (sym e) ∙ own in
          ap (λ n. get n (put next t timers)) now
          ∙ get-put_self next t timers
          ∙ ap some ((eq_iff t u).0 same)
      | inr (other, old) ↦
          let older : d.timer < next = p.fresh d.timer u (p.armed u d old) in
          let apart : nat_eq next d.timer ≡ false = ground arith in
          get-put_other next d.timer t timers apart ∙ p.armed u d old
    ];
    owned = λ n u g. elim (put_inv next n t u timers g) [
      | inl (same, e) ↦
          let there : get u (put t c waiting) ≡ some c =
            ap (λ v. get v (put t c waiting)) (sym e) ∙ get-put_self t c waiting in
          (c, there, own ∙ (nat_eq_iff next n).0 same)
      | inr (other, old) ↦
          let (d, there, o) = p.owned n u old in
          (d, get-put_other t u c waiting (free_apart t u d free there) ∙ there, o)
    ];
    fresh = λ n u g. elim (put_inv next n t u timers g) [
      | inl (same, e) ↦ ground arith
      | inr (other, old) ↦ let b : n < next = p.fresh n u old in omega arith
    ];
  }
