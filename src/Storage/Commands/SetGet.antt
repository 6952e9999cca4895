-- ===== src/Storage/Commands/SetGet.antt =====
-- src/storage/storage.cpp: what `Storage::execute` answers for a key after it has set it.
use eya_kv.Prelude.{
  ◌∙◌, if◌then◌else◌, ℕ, ◌<◌, ◌≤◌, ◌≡◌, ◌≢◌, refl, ap, subst, Bool, Bool-cases, true, false, inl,
  inr, Option, none, some, [], ◌∷◌,
}
use eya_kv.Effects.{returned, M, pure, ◌>>◌, ◌>>=◌, bind_returned, catch_returned}
use eya_kv.Codec.Words.{Bytes}
use eya_kv.Storage.Value.{EValue, EyaValue, is_dead, is_expired, serialize_value}
use eya_kv.Storage.MemTable
use eya_kv.Storage.MemTable.{MemTable, Platform, should_flush}
use eya_kv.Storage.MemTable.Contents.{IsMemTable}
use eya_kv.Storage.MemTable.Puts.{get-put}
use eya_kv.Storage.Wal
use eya_kv.Storage.Wal.{Wal}
use eya_kv.Storage.Engine
use eya_kv.Storage.Engine.{
  Env, Storage, look, rotate_memtable, with_memtable, log_command, append_log, write_memtable,
  get_from_latest, get_from_old, get_from_immutable_memtables, if_alive,
}
use eya_kv.Storage.OperationType.{k_set, k_get}
use eya_kv.Storage.Processors.{monostate, text, value, Response, success}
use eya_kv.Storage.Processors.Strings as StringProcessor
use eya_kv.Storage.Processors.Strings.{set_command, string_value}
use eya_kv.Storage.Commands.{Outside, execute, dispatch, get_command, execute_processor}

module _ {Z : Type 0} where
  -- The log takes the record, or is off.
  log_command-eq :
      (env : Env) (type : ℕ) (key payload : Bytes) (s : Storage Z)
      → (w : Wal) × (log_command env false type key payload s
          ≡ some (returned tt, record s { wal = w }))
  unfolding log_command append_log
  log_command-eq env type key payload s = elim (Bool-cases s.enable_wal) [
    | inl e ↦ (
      (Wal.write_record env.device (record { type = type; key = key; payload = payload }) s.wal).1,
      rw (log_command, e, append_log),
    )
    | inr e ↦ (s.wal, rw (log_command, e))
  ]

  with_memtable-eq :
      (m : M (MemTable Z) (Unit {0})) (s : Storage Z) (t : MemTable Z)
      → m s.memtable ≡ some (returned tt, t)
      → with_memtable m s ≡ some (returned tt, record s { memtable = t })
  unfolding with_memtable
  with_memtable-eq m s t done = rw (with_memtable, done)

  look-eq {ℓ} :
      {A : Type ℓ} (f : Storage Z → Option A) (s : Storage Z) (a : A)
      → f s ≡ some a
      → look f s ≡ some (returned a, s)
  unfolding look
  look-eq f s a e = rw (look, e)

module _ {Z : Type 0} (p : Platform Z) (env : Env) where
  write_memtable-eq :
      (key : Bytes) (v : EValue Z) (s : Storage Z) (t : MemTable Z)
      → MemTable.put p env.level key v s.memtable ≡ some (returned tt, t)
      → should_flush p t ≡ false
      → write_memtable p env key v s ≡ some (returned true, record s { memtable = t })
  unfolding write_memtable
  write_memtable-eq key v s t done room =
      let s' = record s { memtable = t } in
      let flush : Unit {0} → M (Storage Z) Bool = λ u s.
        some (returned true, if should_flush p s.memtable then rotate_memtable p env s else s) in
      catch_returned (with_memtable (MemTable.put p env.level key v) >>= flush) _ {s = s} (
        bind_returned (with_memtable (MemTable.put p env.level key v)) flush
          (with_memtable-eq (MemTable.put p env.level key v) s t done)
        ∙ ap (λ b. some (returned true, if b then rotate_memtable p env s' else s')) room)

  set-eq :
      (write_zset : Z → Bytes) (key v : Bytes) (s : Storage Z) (t : MemTable Z)
      → MemTable.put p env.level key (string_value write_zset p env v 0) s.memtable
        ≡ some (returned tt, t)
      → should_flush p t ≡ false
      → (w : Wal) × (StringProcessor.set write_zset p env key v 0 s
          ≡ some (returned true, record s { wal = w; memtable = t }))
  unfolding StringProcessor.set
  set-eq write_zset key v s t done room =
      let val = string_value write_zset p env v 0 in
      let payload = serialize_value write_zset val in
      let (w, logged) = log_command-eq env k_set key payload s in
      let written = write_memtable-eq key val (record s { wal = w }) t done room in
      (
        w,
        bind_returned (log_command env false k_set key payload >> write_memtable p env key val)
            (λ _. pure true)
            (bind_returned (log_command env false k_set key payload)
                (λ _. write_memtable p env key val) logged
              ∙ written),
      )

  get-memtable :
      (key : Bytes) (v : EValue Z) (s : Storage Z)
      → MemTable.get p key s.memtable ≡ some (some v)
      → is_dead env.now v ≡ false
      → Engine.get p env key s ≡ some (some v.value)
  unfolding Engine.get get_from_latest get_from_old get_from_immutable_memtables if_alive
  get-memtable key v s found alive = rw (Engine.get, get_from_latest, found, if_alive, alive)

  get-other :
      (key : Bytes) (s : Storage Z) (w : Wal) (t : MemTable Z)
      → MemTable.get p key t ≡ MemTable.get p key s.memtable
      → Engine.get p env key (record s { wal = w; memtable = t }) ≡ Engine.get p env key s
  unfolding Engine.get get_from_latest get_from_old get_from_immutable_memtables
  get-other key s w t same = rw (Engine.get, get_from_latest, same)

  get_command-eq :
      (outside : Outside Z) (key : Bytes) (v : EyaValue Z) (s : Storage Z)
      → Engine.get p env key s ≡ some (some v)
      → get_command p env outside (key ∷ []) s ≡ some (returned (success (value v)), s)
  unfolding get_command
  get_command-eq outside key v s e =
      let answer : Option (EyaValue Z) → M (Storage Z) (Response Z) =
        λ o. elim o [ none ↦ pure (success monostate) | some val ↦ pure (success (value val)) ] in
      bind_returned (look (Engine.get p env key)) answer {s = s}
        (look-eq (Engine.get p env key) s (some v) e)

  -- SET of a key and a value, on a storage that takes writes, whose memtable is well formed and stays
  -- below its limit, with a level that its skip lists have, answers 1. GET of the key then answers the
  -- value, whatever the key had before, every other key has what it had, and the memtable is again well
  -- formed.
  pub execute-set_get :
      (outside : Outside Z) (level_limit : ℕ) (key v : Bytes) (s : Storage Z) (t : MemTable Z)
      → IsMemTable p level_limit s.memtable
      → 0 < env.level
      → env.level ≤ level_limit
      → should_flush p s.memtable ≡ false
      → MemTable.put p env.level key (string_value outside.write_zset p env v 0) s.memtable
        ≡ some (returned tt, t)
      → should_flush p t ≡ false
      → (s' : Storage Z) × (execute p env outside false false k_set (key ∷ v ∷ []) s
          ≡ some (returned (success (text (49 ∷ []))), s'))
        × (execute p env outside false false k_get (key ∷ []) s'
            ≡ some (returned (success (value (EyaValue.string v))), s'))
        × ((k : Bytes) → key ≢ k → Engine.get p env k s' ≡ Engine.get p env k s)
        × IsMemTable p level_limit s'.memtable
  unfolding execute dispatch execute_processor StringProcessor.execute get_command set_command
      string_value is_dead is_expired
  execute-set_get outside level_limit key v s t valid pos_level fits below done room =
      let val = string_value outside.write_zset p env v 0 in
      let (t', done', found, others, valid') =
        get-put p level_limit key val env.level s.memtable valid below pos_level fits in
      let same : t' ≡ t = cc (done, done') in
      let (w, set) = set-eq outside.write_zset key v s t done room in
      let s' = record s { wal = w; memtable = t } in
      let found' : MemTable.get p key t ≡ some (some val) =
        subst (λ (x : MemTable Z). MemTable.get p key x ≡ some (some val)) same found in
      (
        s',
        catch_returned (execute_processor p env outside k_set (key ∷ v ∷ [])) _ {s = s} (
            catch_returned (set_command outside.write_zset p env (key ∷ v ∷ [])) _ {s = s} (
              bind_returned (StringProcessor.set outside.write_zset p env key v 0)
                (λ ok. pure (success (text ((if ok then 49 else 48) ∷ [])))) set)),
        catch_returned (get_command p env outside (key ∷ [])) _ {s = s'} (
            get_command-eq outside key (EyaValue.string v) s'
              (get-memtable key val s' found' refl)),
        λ k n. get-other k s w t (
            subst (λ (x : MemTable Z). MemTable.get p k x ≡ MemTable.get p k s.memtable) same
              (others k n)),
        subst (IsMemTable p level_limit) same valid',
      )
