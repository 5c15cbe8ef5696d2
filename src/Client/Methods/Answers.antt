-- ===== src/Client/Methods/Answers.antt =====
-- The answers to requests over the method table of the client.
use esp_soulcloud_client.Prelude.{
  ℕ, ◌≤◌, ◌<◌, ◌≡◌, subst, List, [], ◌∷◌, none, some, Bytes, length, equal, replicate, inl, inr,
  zero, suc, Bool-cases, Option-cases, arith,
}
use esp_soulcloud_client.Client.Methods.{
  Parts, Builtin, MethodTable, builtin_methods, handled_by, add_builtins, register_builtin_methods,
  add_methods,
}
use esp_soulcloud_client.Client.Methods.Fields.{handled_by-WritesFields}
use esp_soulcloud_client.Esp.{EspErr}
use esp_soulcloud_client.Json.Reader.{Reader}
use esp_soulcloud_client.Rpc.Handle.{Handler, Setup, handle}
use esp_soulcloud_client.Rpc.Handle.Body.{WritesFields, IsAnswer, handle-IsAnswer}
use esp_soulcloud_client.Rpc.Methods.{MethodEntry, put_method, add_method, find_method}
use esp_soulcloud_client.Rpc.Slots.{Slot}

-- A handler whose calls write members of the result, whatever the request is.
abbrev pub Writes : Handler → Type 0
Writes handler = (name : Bytes) (params : Reader) → WritesFields (handler name params)

abbrev AllWrite : MethodTable → Type 0
AllWrite [] = Unit
AllWrite (none ∷ table) = AllWrite table
AllWrite (some entry ∷ table) = Writes entry.handler × AllWrite table

-- The methods that an application adds.
abbrev pub EachWrites : List (Bytes × Handler) → Type 0
EachWrites [] = Unit
EachWrites ((name, handler) ∷ methods) = Writes handler × EachWrites methods

find_method-Writes :
    (name : Bytes) (table : MethodTable) (entry : MethodEntry Handler)
    → AllWrite table
    → find_method Handler name table ≡ some entry
    → Writes entry.handler
unfolding find_method
find_method-Writes name [] entry all found = absurd (ground (arith, found))
find_method-Writes name (none ∷ table) entry all found =
    find_method-Writes name table entry all found
find_method-Writes name (some m ∷ table) entry (here, all) found =
    elim (Bool-cases (equal m.name name)) [
      | inl named ↦
          (let same : some m ≡ some entry = ground (arith, named, found) in
            let same' : m ≡ entry = cc in
            subst (λ (e : MethodEntry Handler). Writes e.handler) same' here)
      | inr other ↦ find_method-Writes name table entry all (ground (arith, other, found))
    ]

put_method-AllWrite :
    (e : MethodEntry Handler) (table table' : MethodTable)
    → Writes e.handler
    → AllWrite table
    → put_method Handler e table ≡ some table'
    → AllWrite table'
unfolding put_method
put_method-AllWrite e [] table' w all put = absurd (ground (arith, put))
put_method-AllWrite e (none ∷ table) table' w all put =
    let same : some e ∷ table ≡ table' = cc in subst AllWrite same (w, all)
put_method-AllWrite e (some m ∷ table) table' w (here, all) put =
    elim (Bool-cases (equal m.name e.name)) [
      | inl named ↦
          (let same : some e ∷ table ≡ table' = ground (arith, named, put) in
            subst AllWrite same (w, all))
      | inr other ↦ elim (Option-cases (put_method Handler e table)) [
        | inl full ↦ absurd (ground (arith, other, put, full))
        | inr (rest, found) ↦
            (let same : some m ∷ rest ≡ table' = ground (arith, other, put, found) in
              subst AllWrite same (here, put_method-AllWrite e table rest w all found))
      ]
    ]

add_method-AllWrite :
    (name : Bytes) (handler : Handler) (table : MethodTable)
    → Writes handler
    → AllWrite table
    → AllWrite (add_method Handler (some name) (some handler) table).1
unfolding add_method
add_method-AllWrite name handler table w all =
    let e : MethodEntry Handler = record { name = name; handler = handler } in
    elim (Option-cases (put_method Handler e table)) [
      | inl full ↦ rw (full, AllWrite, add_method) all
      | inr (table', put) ↦
          rw (put, AllWrite, add_method) (put_method-AllWrite e table table' w all put)
    ]

add_builtins-AllWrite :
    (parts : Parts) (methods : List (Bytes × Builtin)) (r : EspErr × MethodTable)
    → AllWrite r.1
    → AllWrite (add_builtins parts methods r).1
unfolding add_builtins
add_builtins-AllWrite parts [] r all = all
add_builtins-AllWrite parts ((name, method) ∷ methods) (EspErr.esp_ok, table) all =
    add_builtins-AllWrite parts methods
      (add_method Handler (some name) (some (λ _ params. handled_by parts method params)) table)
      (add_method-AllWrite name (λ _ params. handled_by parts method params) table
        (λ _ params. handled_by-WritesFields parts method params) all)
add_builtins-AllWrite parts (_ ∷ methods) (_, table) all = all

add_methods-AllWrite :
    (methods : List (Bytes × Handler)) (table : MethodTable)
    → EachWrites methods
    → AllWrite table
    → AllWrite (add_methods methods table)
unfolding add_methods
add_methods-AllWrite [] table each all = all
add_methods-AllWrite ((name, handler) ∷ methods) table (w, each) all =
    add_methods-AllWrite methods (add_method Handler (some name) (some handler) table).1 each
      (add_method-AllWrite name handler table w all)

no_methods : (size : ℕ) → AllWrite (replicate size none)
no_methods zero = tt
no_methods (suc size) = no_methods size

-- Over a table of any size that `register_builtin_methods` fills and the application then adds methods
-- to, where the calls that the application's handlers make write members of an object less than 30 deep,
-- the result buffer has the configured size, at least 690 bytes, and each error code has a name: the body
-- of every answer is the whole of a result object, or the whole of an error object with an error text of
-- 1 to 111 bytes.
pub builtin-IsAnswer :
    (parts : Parts) (setup : Setup) (table_size : ℕ) (methods : List (Bytes × Handler))
    (resp_buf : Bytes) (slot : Slot)
    → EachWrites methods
    → length resp_buf ≡ setup.result_max
    → 690 ≤ setup.result_max
    → ((e : EspErr) → 0 < length (setup.err_name e))
    → IsAnswer (
        handle setup
          (add_methods methods (register_builtin_methods parts (replicate table_size none)).1)
          resp_buf
          slot)
unfolding register_builtin_methods
builtin-IsAnswer parts setup table_size methods resp_buf slot each size large named =
    let builtins = register_builtin_methods parts (replicate table_size none) in
    let all = add_methods-AllWrite methods builtins.1 each (
      add_builtins-AllWrite parts builtin_methods (EspErr.esp_ok, replicate table_size none)
        (no_methods table_size)) in
    handle-IsAnswer setup (add_methods methods builtins.1) resp_buf slot size large named
      (λ entry params found.
        find_method-Writes slot.method (add_methods methods builtins.1) entry all found slot.method
          params)
