-- ===== src/Delivery/Results/Finalized.antt =====
-- What reaches the stored procedure is well formed, whatever the network did.
use go_webhook_delivery.Common.{
  ◌≡◌, refl, Bool, true, false, ◌&&◌, ◌||◌, Option, none, some, arith, Bytes, is_empty, ltb, min, ℤ,
  pos, negsuc, ◌≤ℤ◌, int16, leb_ℤ, ltb_ℤ, ◌+◌, Bool-cases, inl, inr,
}
use go_webhook_delivery.Delivery.Types.{Disposition, success, retry, permanent_failure, Outcome}
use go_webhook_delivery.Delivery.Results.{
  Response, Reply, answered, send_failed, Finalization, max_response, retryable_status,
  classify_response, execute, normalize_result, delay_of, finalize,
}
use go_webhook_delivery.Delivery.Results.Shape.{
  InHttp, Is2xx, Shaped, IsShaped, IsShaped-if, classify_error-IsShaped, int16_id,
}

abbrev out_of_range : ℤ → Bool
out_of_range z = ltb_ℤ z (pos 100) || ltb_ℤ (pos 599) z

abbrev is_2xx : ℤ → Bool
is_2xx z = leb_ℤ (pos 200) z && ltb_ℤ z (pos 300)

Is2xx-int16 : (z : ℤ) → is_2xx z ≡ true → Is2xx (some (int16 z))
Is2xx-int16 (pos n) h = rw (int16_id n (ground arith)) (ground arith)
Is2xx-int16 (negsuc n) h = absurd (ground arith)

InHttp-int16 : (z : ℤ) → out_of_range z ≡ false → InHttp (some (int16 z))
InHttp-int16 (pos n) h = rw (int16_id n (ground arith)) (ground arith)
InHttp-int16 (negsuc n) h = absurd (ground arith)

classify_response-IsShaped :
    (parse_time : Bytes → Option ℤ) (cap now : ℤ) (w : Response)
    → IsShaped (classify_response parse_time cap now w)
unfolding classify_response
classify_response-IsShaped parse_time cap now w =
    IsShaped-if w.read_fails _ _ (λ _. (tt, refl))
      (λ _.
        IsShaped-if (ltb max_response (min w.body_size (max_response + 1))) _ _ (λ _. refl)
          (λ _.
            IsShaped-if (out_of_range w.status) _ _ (λ _. refl)
              (λ known.
                IsShaped-if (is_2xx w.status) _ _ (λ h. (Is2xx-int16 w.status h, refl))
                  (λ _.
                    IsShaped-if (retryable_status w.status) _ _
                      (λ _. (InHttp-int16 w.status known, refl)) (λ _. refl)))))

-- Every reply, and every error of the client, gives a result of its kind's shape.
pub execute-IsShaped :
    (parse_time : Bytes → Option ℤ) (cap now : ℤ) (reply : Reply)
    → IsShaped (execute parse_time cap now reply)
unfolding execute
execute-IsShaped parse_time cap now (answered w) = classify_response-IsShaped parse_time cap now w
execute-IsShaped parse_time cap now (send_failed e status) = classify_error-IsShaped e status

-- The arguments of the stored procedure fit together: the status, if any, is one of HTTP; a success
-- has a 2xx status, no category and no delay; a retry has a category and a delay between 0 and the
-- cap; a permanent failure has a category and no delay.
abbrev pub IsFinal : ℤ → Disposition → Option ℤ → Bytes → Option ℤ → Type 0
IsFinal cap success status category none = Is2xx status × (is_empty category ≡ true)
IsFinal cap success status category (some d) = ⊥
IsFinal cap retry status category none = ⊥
IsFinal cap retry status category (some d) =
    InHttp status × (is_empty category ≡ false) × (pos 0 ≤ℤ d) × (d ≤ℤ cap)
IsFinal cap permanent_failure status category none = InHttp status × (is_empty category ≡ false)
IsFinal cap permanent_failure status category (some d) = ⊥

abbrev pub FinalFor : ℤ → Finalization → Type 0
FinalFor cap f = IsFinal cap f.disposition f.http_status f.category f.retry_delay

-- The delay of a retry lies between 0 and the cap.
abbrev pub DelayIn : ℤ → Disposition → ℤ → Type 0
DelayIn cap retry d = (pos 0 ≤ℤ d) × (d ≤ℤ cap)
DelayIn cap _ d = Unit

in_http? : (z : ℤ) → leb_ℤ (pos 100) z && leb_ℤ z (pos 599) ≡ true → InHttp (some z)
in_http? (pos n) h = ground arith
in_http? (negsuc n) h = absurd (ground arith)

finalize_kind :
    (cap : ℤ) (disposition : Disposition) (status : Option ℤ) (category : Bytes) (delay : ℤ)
    → InHttp status
    → Shaped disposition status category
    → DelayIn cap disposition delay
    → IsFinal cap disposition status category (delay_of disposition delay)
unfolding delay_of
finalize_kind cap success status category delay i s d = s
finalize_kind cap retry status category delay i s d = (i, s.1, d.0, d.1)
finalize_kind cap permanent_failure status category delay i s d = (i, s)

finalize_status :
    (cap : ℤ) (o : Outcome) (status : Option ℤ)
    → o.http_status ≡ status
    → IsShaped o
    → DelayIn cap o.disposition o.retry_after
    → (let n = normalize_result o status in
        IsFinal cap n.disposition n.http_status n.category (delay_of n.disposition n.retry_after))
unfolding normalize_result delay_of
finalize_status cap o none e s d =
    finalize_kind cap o.disposition o.http_status o.category o.retry_after (rw e tt) s d
finalize_status cap o (some z) e s d = elim (Bool-cases (leb_ℤ (pos 100) z && leb_ℤ z (pos 599))) [
  | inl inside ↦ rw inside (
      finalize_kind cap o.disposition o.http_status o.category o.retry_after
        (rw e (in_http? z inside)) s d)
  | inr outside ↦ rw outside (tt, refl)
]

pub finalize-FinalFor :
    (cap : ℤ) (o : Outcome)
    → IsShaped o
    → DelayIn cap o.disposition o.retry_after
    → FinalFor cap (finalize o)
unfolding finalize
finalize-FinalFor cap o s d = finalize_status cap o o.http_status refl s d
