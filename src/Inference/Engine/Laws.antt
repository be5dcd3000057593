-- ===== src/Inference/Engine/Laws.antt =====
-- What the threads of the inference engine of src/inference/onnx_engine.cpp keep.
use mathlib.Core.List.{Permᴰ}
use zero_latency_yolo.Base.{
  ℕ, zero, suc, ◌*◌, ◌/◌, ◌-◌, ◌≤◌, ◌≡◌, refl, true, false, List, [], ◌∷◌, ◌++◌, some, arith,
  length, length-append, get_elem?, All, subst, if-cases, ltb, leb,
}
use zero_latency_yolo.Base.Maybe.{Gives-some, get_elem?-Gives}
use zero_latency_yolo.Base.Perms.{All-Permᴰ}
use zero_latency_yolo.Udp.Server.{success, failure}
use zero_latency_yolo.Protocol.{not_initialized}
use zero_latency_yolo.Inference.{
  InferenceRequest, OnnxInferenceEngine, ModelAnswer, missing, load_failed, loaded, threw,
  initialize, submit_inference,
}
use zero_latency_yolo.Inference.Engine.{remember, drop_front, p99, with_latency}

-- In an order in which none is greater than one after it.
abbrev pub IsSorted : List ℕ → Type 0
IsSorted [] = Unit {0}
IsSorted (n ∷ ns) = All (λ m. n ≤ m) ns × IsSorted ns

last-greatest :
    (ns : List ℕ) (i m : ℕ)
    → IsSorted ns
    → suc i ≡ length ns
    → get_elem? ns i ≡ some m
    → All (λ n. n ≤ m) ns
last-greatest [] i m sorted e found = tt
last-greatest (n ∷ []) zero m sorted e found = (ground (arith, found), tt)
last-greatest (n ∷ []) (suc i) m sorted e found = let no : ⊥ = omega (arith, e) in elim no [ ]
last-greatest (n ∷ k ∷ ns) zero m sorted e found = let no : ⊥ = omega (arith, e) in elim no [ ]
last-greatest (n ∷ k ∷ ns) (suc i) m sorted e found =
    let rest = last-greatest (k ∷ ns) i m sorted.1 (omega (arith, e)) found in
    (omega (arith, sorted.0.0, rest.0), rest)

length-drop_front : (ns : List ℕ) → length (drop_front ns) ≡ length ns - 1
unfolding drop_front
length-drop_front [] = omega arith
length-drop_front (n ∷ ns) = omega arith

Permᴰ-length : {ns ms : List ℕ} → Permᴰ ns ms → length ns ≡ length ms
Permᴰ-length Permᴰ.nil = refl
Permᴰ-length (Permᴰ.cons e d) = omega (arith, Permᴰ-length d)
Permᴰ-length (Permᴰ.swap e₁ e₂) = refl
Permᴰ-length (Permᴰ.trans d₁ d₂) = omega (arith, Permᴰ-length d₁, Permᴰ-length d₂)

p99-greatest :
    (sort : List ℕ → List ℕ) (history : List ℕ)
    → length history ≡ 100
    → Permᴰ (sort history) history
    → IsSorted (sort history)
    → All (λ n. n ≤ p99 sort history) history
unfolding p99
p99-greatest sort history full permuted sorted =
    let (m, there, _) =
      Gives-some (λ _. Unit {0}) (get_elem? (sort history) (99 * length history / 100))
        (get_elem?-Gives (sort history) (99 * length history / 100)
          (omega (arith, full, Permᴰ-length permuted))) in
    let all =
      last-greatest (sort history) 99 m sorted (omega (arith, full, Permᴰ-length permuted))
        (ground (arith, full, there)) in
    All-Permᴰ (λ n. n ≤ p99 sort history) permuted
      (subst (λ k. All (λ n. n ≤ k) (sort history)) (ground (arith, there)) all)

length-remember_full :
    (history : List ℕ) (elapsed : ℕ)
    → 99 ≤ length history
    → length history ≤ 100
    → length (remember history elapsed) ≡ 100
unfolding remember
length-remember_full history elapsed low high =
    if-cases (λ l. length l ≡ 100) (ltb 100 (length (history ++ elapsed ∷ [])))
      {x = drop_front (history ++ elapsed ∷ [])} {y = history ++ elapsed ∷ []}
      (λ long. ground (
        arith,
        low,
        high,
        long,
        length-append history (elapsed ∷ []),
        length-drop_front (history ++ elapsed ∷ []),
      ))
      (λ short. ground (arith, short, low, length-append history (elapsed ∷ [])))

-- A worker that had 99 or 100 latencies then has 100, and what it stores as the 99th percentile is no
-- less than any of them, where std::sort has permuted them into an order in which none is greater
-- than one after it.
pub with_latency_lem :
    (sort : List ℕ → List ℕ) (e : OnnxInferenceEngine) (elapsed : ℕ)
    → 99 ≤ length e.latency_history
    → length e.latency_history ≤ 100
    → Permᴰ (sort (remember e.latency_history elapsed)) (remember e.latency_history elapsed)
    → IsSorted (sort (remember e.latency_history elapsed))
    → (length (with_latency sort e elapsed).latency_history ≡ 100)
      × All
          (λ n. n ≤ (with_latency sort e elapsed).p99_inference_latency_ms)
          (with_latency sort e elapsed).latency_history
unfolding with_latency
with_latency_lem sort e elapsed low high permuted sorted =
    let full = length-remember_full e.latency_history elapsed low high in
    (
      full,
      if-cases (λ p. All (λ n. n ≤ p) (remember e.latency_history elapsed))
          (leb 100 (length (remember e.latency_history elapsed)))
          (λ _. p99-greatest sort (remember e.latency_history elapsed) full permuted sorted)
          (λ short. let no : ⊥ = ground (arith, short, full) in elim no [ ]),
    )

-- Where initialize of an engine that neither runs nor simulates leaves it in simulation mode, it has
-- reported success, and yet every request is refused. If initialize is called again and the model is
-- loaded this time, the engine accepts requests, and is still in simulation mode.
pub submit_inference-simulation :
    (answer : ModelAnswer) (e : OnnxInferenceEngine) (request : InferenceRequest) (now : ℕ)
    → e.running ≡ false
    → e.simulation_mode ≡ false
    → (initialize answer e).0.simulation_mode ≡ true
    → let e' = (initialize answer e).0 in
      let e'' = (initialize loaded e').0 in
      ((initialize answer e).1 ≡ success tt)
      × ((submit_inference e' request now).1 ≡ failure not_initialized)
      × ((submit_inference e'' request now).1 ≡ success tt)
      × (e''.simulation_mode ≡ true)
unfolding initialize submit_inference
submit_inference-simulation missing e request now stopped real simulated =
    (refl, ground (arith, stopped), refl, refl)
submit_inference-simulation load_failed e request now stopped real simulated =
    (refl, ground (arith, stopped), refl, refl)
submit_inference-simulation loaded e request now stopped real simulated = cc
submit_inference-simulation threw e request now stopped real simulated = cc
