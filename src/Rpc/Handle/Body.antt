-- ===== src/Rpc/Handle/Body.antt =====
-- The body of the answer to a request.
use esp_soulcloud_client.Prelude.{
  ◌≤◌, ◌<◌, List, [], ◌∷◌, ◌++◌, ◌≡◌, refl, sym, ap, ◌∙◌, ◌⊎◌, inl, inr, true, false, Option, none,
  some, Bytes, codes, length, ◌==◌, if◌then◌else◌, if_cases, Option-cases, append-nil, append_assoc,
  arith,
}
use esp_soulcloud_client.Esp.{EspErr}
use esp_soulcloud_client.Json.Decimal.{decimal}
use esp_soulcloud_client.Json.Reader.{Reader, parse}
use esp_soulcloud_client.Rpc.Methods.{MethodEntry, find_method}
use esp_soulcloud_client.Rpc.Slots.{Slot}
use esp_soulcloud_client.Json.Shows.Contract.{run-is_ok, run-text, shown}
use esp_soulcloud_client.Json.Shows.Null.{reset-run}
use esp_soulcloud_client.Json.Value.{Fields, print, height, height_fields, ops_of, ops_of_fields}
use esp_soulcloud_client.Json.Writer.{
  Writer, Op, create, reset, is_ok, text, begins_object, ends_object, adds_bool, adds_str,
}
use esp_soulcloud_client.Json.Writer
use esp_soulcloud_client.Json.Written.{run-print}
use esp_soulcloud_client.Rpc.Handle.Errors.{
  result_value, error_value, length-error_value, cut_error-range, call_error-range,
}
use esp_soulcloud_client.Rpc.Handle.{
  Handled, Handler, Setup, run_method, write_error, cut_error, run_entry, params_json,
  handle_request, handle,
}

run-append :
    (xs ys : List Op) (w : Writer) → Writer.run w (xs ++ ys) ≡ Writer.run (Writer.run w xs) ys
unfolding Writer.run
run-append [] ys w = refl
run-append (x ∷ xs) ys w = run-append xs ys (Writer.apply w x)

error_ops_written :
    (w : Writer) (error : Bytes)
    → write_error w error ≡ Writer.run (reset w) (ops_of none (error_value error))
unfolding write_error Writer.run Writer.apply ops_of
error_ops_written w error = refl

-- The calls of `run_method`, whatever the handler's are.
abbrev method_ops : List Op → List Op
method_ops ops =
    begins_object none
    ∷ adds_bool (some (codes "ok")) true
    ∷ begins_object (some (codes "result"))
    ∷ (ops ++ ends_object ∷ ends_object ∷ [])

run_method-run : (out : Writer) (h : Handled) → run_method out h ≡ Writer.run out (method_ops h.ops)
unfolding run_method Writer.run Writer.apply
run_method-run out h =
    let w =
      Writer.begin_object (Writer.add_bool (Writer.begin_object out none) (some (codes "ok")) true)
        (some (codes "result")) in
    sym (run-append h.ops (ends_object ∷ ends_object ∷ []) w)

-- `run_method` writes the result object, where the handler's calls write its members.
run_method-value :
    (out : Writer) (h : Handled) (fields : Fields)
    → ((w : Writer) → Writer.run w h.ops ≡ Writer.run w (ops_of_fields fields))
    → run_method out h ≡ Writer.run out (method_ops (ops_of_fields fields))
unfolding run_method
run_method-value out h fields e =
    let w =
      Writer.begin_object (Writer.add_bool (Writer.begin_object out none) (some (codes "ok")) true)
        (some (codes "result")) in
    ap (λ x. Writer.end_object (Writer.end_object x)) (e w)
    ∙ run_method-run out (record h { ops = ops_of_fields fields })

method_ops-value :
    (fields : Fields) → method_ops (ops_of_fields fields) ≡ ops_of none (result_value fields)
unfolding ops_of
method_ops-value fields =
    ap
      (λ ops.
        begins_object none
        ∷ adds_bool (some (codes "ok")) true
        ∷ begins_object (some (codes "result"))
        ∷ ops)
      (sym (append_assoc (ops_of_fields fields) (ends_object ∷ []) (ends_object ∷ []))
        ∙ ap (λ ops. ops ++ ends_object ∷ [])
            (sym (append-nil (ops_of_fields fields ++ ends_object ∷ []))))

-- What a handler is trusted with: its calls leave any writer as the calls do that write some members of
-- an object.
abbrev pub WritesFields : Handled → Type 0
WritesFields h =
    (fields : Fields) × ((w : Writer) → Writer.run w h.ops ≡ Writer.run w (ops_of_fields fields))
    × (height_fields fields ≤ 29)

result_low : (fields : Fields) → height_fields fields ≤ 29 → height (result_value fields) ≤ 31
unfolding height
result_low fields h = omega (arith, h)

error_low : (error : Bytes) → height (error_value error) ≤ 31
unfolding height
error_low error = omega arith

-- The two bodies that a request can be answered with.
abbrev pub IsAnswer : Bytes → Type 0
IsAnswer body =
    ((fields : Fields) × (body ≡ print (result_value fields)))
    ⊎ ((error : Bytes) × (0 < length error)
        × (length error ≤ 111)
        × (body ≡ print (error_value error)))

module _ (setup : Setup) (resp_buf : Bytes) (size : length resp_buf ≡ setup.result_max)
    (large : 690 ≤ setup.result_max) where
  abbrev start : Writer
  start = create (some resp_buf) setup.result_max

  -- A writer behind some calls, and an error; without an error the calls wrote a result that fits.
  record Prepared (p : Writer × Bytes) : Type 0 where
    ops : List Op
    out_is : p.0 ≡ Writer.run start ops
    short : length p.1 ≤ 111
    done :
        (0 < length p.1)
        ⊎ (fields : Fields) × (ops ≡ ops_of none (result_value fields))
          × (height_fields fields ≤ 29)
          × (is_ok p.0 ≡ true)

  start_null : start.is_null ≡ false
  unfolding create reset
  start_null = refl

  -- Behind any calls, the error object is written whole.
  write_error-text :
      (ops : List Op) (error : Bytes)
      → length error ≤ 111
      → text (write_error (Writer.run start ops) error) ≡ print (error_value error)
  write_error-text ops error short =
      let shows = shown resp_buf setup.result_max ops size (omega (arith, large)) in
      let out = Writer.run start ops in
      let fresh : reset out ≡ create (some out.buf) setup.result_max =
        reset-run ops start start_null ∙ ap (λ k. create (some out.buf) k) shows.same_cap in
      let n = length-error_value error in
      let (t, b, d) = run-print (error_value error) (error_low error) in
      let m = ap length t in
      let eops = ops_of none (error_value error) in
      let ok =
        (run-is_ok out.buf setup.result_max eops shows.size (omega (arith, large))).1
          (b, omega (arith, m, n, short, large)) in
      ap text (error_ops_written out error ∙ ap (λ w. Writer.run w eops) fresh)
      ∙ (run-text out.buf setup.result_max eops shows.size (omega (arith, large)) ok).0
      ∙ t

  Prepared-IsAnswer :
      (p : Writer × Bytes)
      → Prepared p
      → IsAnswer (if length p.1 == 0 then text p.0 else text (write_error p.0 p.1))
  Prepared-IsAnswer p h =
      if_cases IsAnswer (length p.1 == 0)
        (λ no_error. elim h.done [
          | inl some_error ↦ absurd (ground (arith, no_error, some_error))
          | inr (fields, e, low, ok) ↦
              (let (t, b, d) = run-print (result_value fields) (result_low fields low) in
                let same = h.out_is ∙ ap (Writer.run start) e in
                let good = ap is_ok (sym same) ∙ ok in
                inl (
                  fields,
                  ap text same
                      ∙ (run-text resp_buf setup.result_max (ops_of none (result_value fields)) size
                          (omega (arith, large)) good).0
                      ∙ t,
                ))
        ])
        (λ some_error. inr (
          p.1,
          ground (arith, some_error),
          h.short,
          ap (λ w. text (write_error w p.1)) h.out_is ∙ write_error-text h.ops p.1 h.short,
        ))

  failed_early : (error : Bytes) → 0 < length error → Prepared (start, cut_error error)
  unfolding Writer.run
  failed_early error some_error =
      let r = cut_error-range error some_error in
      record { ops = []; out_is = refl; short = r.1; done = inl r.0 }

  run_entry-Prepared :
      (slot : Slot) (entry : MethodEntry Handler) (parsed : EspErr × Reader)
      → ((e : EspErr) → 0 < length (setup.err_name e))
      → ((params : Reader) → WritesFields (entry.handler slot.method params))
      → Prepared (run_entry setup start slot entry parsed)
  unfolding run_entry
  run_entry-Prepared slot entry (EspErr.esp_ok, params) named writes =
      let h = entry.handler slot.method params in
      let (fields, e, low) = writes params in
      let out = run_method start h in
      let (short, done) = call_error-range setup h out named in
      record {
        ops = ops_of none (result_value fields);
        out_is =
            run_method-value start h fields e ∙ ap (Writer.run start) (method_ops-value fields);
        short = short;
        done = elim done [ inl some_error ↦ inl some_error | inr ok ↦ inr (fields, refl, low, ok) ];
      }
  run_entry-Prepared slot entry (_, params) named writes =
      failed_early (codes "params must be a JSON object") (omega arith)

  handle_request-Prepared :
      (methods : List (Option (MethodEntry Handler))) (slot : Slot)
      → ((e : EspErr) → 0 < length (setup.err_name e))
      → ((entry : MethodEntry Handler) (params : Reader)
          → find_method Handler slot.method methods ≡ some entry
          → WritesFields (entry.handler slot.method params))
      → Prepared (handle_request setup methods start slot)
  unfolding handle_request
  handle_request-Prepared methods slot named writes =
      if_cases Prepared slot.too_large
        (λ _.
          failed_early
            (codes "request larger than " ++ (decimal setup.payload_max ++ codes " bytes"))
            (omega arith))
        (λ _. elim (Option-cases (find_method Handler slot.method methods)) [
          | inl unknown ↦
              rw unknown (failed_early (codes "unknown method " ++ slot.method) (omega arith))
          | inr (entry, found) ↦ rw found (
              run_entry-Prepared slot entry (parse setup.jsmn 32 (params_json slot)) named
                (λ params. writes entry params found))
        ])

-- Over a result buffer of the configured size, at least 690 bytes, with a name for each error code,
-- and where the handler found for the request's method makes calls that write members of an object
-- less than 30 deep: the body that is answered with is either
-- the whole of a result object, or the whole of an error object with an error text of 1 to 111 bytes.
pub handle-IsAnswer :
    (setup : Setup) (methods : List (Option (MethodEntry Handler))) (resp_buf : Bytes) (slot : Slot)
    → length resp_buf ≡ setup.result_max
    → 690 ≤ setup.result_max
    → ((e : EspErr) → 0 < length (setup.err_name e))
    → ((entry : MethodEntry Handler) (params : Reader)
        → find_method Handler slot.method methods ≡ some entry
        → WritesFields (entry.handler slot.method params))
    → IsAnswer (handle setup methods resp_buf slot)
unfolding handle
handle-IsAnswer setup methods resp_buf slot size large named writes =
    let p = handle_request setup methods (create (some resp_buf) setup.result_max) slot in
    Prepared-IsAnswer setup resp_buf size large p
      (handle_request-Prepared setup resp_buf size large methods slot named writes)
