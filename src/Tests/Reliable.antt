-- ===== src/Tests/Reliable.antt =====
-- A database that never fails: every operation of a delegate on a table in memory, and that it
-- behaves as documented. It shows that the laws of the client can hold together.
use social_listening_backend.Schema.Accounts.{
  Permission, RolePermission, Token, SocialGroup, UserInGroup, FileRow, Notification,
  SocketConnection, SocialTabSetting, MessageReplied, ActivityLog,
}
use social_listening_backend.Base.{
  ℕ, suc, ◌+◌, ◌≤◌, ◌≡◌, ◌≢◌, refl, sym, ◌==◌, ==_iff, Bool, Bool-cases, true, not, Option, none,
  some, List, [], ◌∷◌, ◌++◌, inl, inr, arith,
}
use social_listening_backend.Schema.{
  Role, User, UserInTab, SocialTab, SocialNetwork, SocialTabLog, SocialSender, SocialPost,
  SocialMessage, Message, Setting, Workflow, WorkflowNode, WorkflowEdge, WorkflowVariable,
  WorkflowDataRow, UserInHotQueue, HotQueueMessage,
}
use social_listening_backend.Lists.{count, find, keep, update_where, Has, All}
use social_listening_backend.Exec.{Result, ok, err, Error}
use social_listening_backend.Prisma.{
  Reliable, Inserted, Deleted, Delegate, FoundFirst, Updated, Placed,
}
use social_listening_backend.Store.{Client}

module _ {R : Type 0} where
  find-some : (p : R → Bool) (t : List R) (r : R) → find p t ≡ some r → Has r t × (p r ≡ true)
  find-some p [] r e = absurd (ground arith)
  find-some p (x ∷ xs) r e = elim (Bool-cases (p x)) [
    | inl h ↦ let same : x ≡ r = ground arith in (inl (sym same), rw (← same) h)
    | inr h ↦ let (has, at) = find-some p xs r (ground arith) in (inr has, at)
  ]

  pub find-FoundFirst :
      (p : R → Bool) (t : List R) (o : Option R) → find p t ≡ o → FoundFirst p t (ok o)
  find-FoundFirst p t none e = e
  find-FoundFirst p t (some r) e = find-some p t r e

module _ {R : Type 0} where
  abbrev inserted : R → List R → Option R → Result (R × List R)
  inserted new t none = ok (new, t ++ new ∷ [])
  inserted new t (some x) = err Error.call_failed

  abbrev deleted : List R → Option R → Result (List R)
  deleted t none = err Error.record_does_not_exist
  deleted t (some x) = ok t

  pub deleted_ok : (t : List R) (o : Option R) (e : Error) → o ≢ none → deleted t o ≢ err e
  deleted_ok t none e there h = there refl
  deleted_ok t (some x) e there h = cc

  pub inserted-Inserted :
      (same : R → Bool) (new : R) (t : List R) (o : Option R)
      → find same t ≡ o
      → Inserted same new t (inserted new t o)
  inserted-Inserted same new t none e = (refl, refl, e)
  inserted-Inserted same new t (some x) e = tt

  inserted_ok :
      (new : R) (t : List R) (o : Option R) (e : Error) → o ≡ none → inserted new t o ≢ err e
  inserted_ok new t none e free h = cc
  inserted_ok new t (some x) e free h = cc

  pub deleted-Deleted :
      (same : R → Bool) (t : List R) (o : Option R)
      → find same t ≡ o
      → Deleted same t (deleted (keep (λ x. not (same x)) t) o)
  deleted-Deleted same t none e = tt
  deleted-Deleted same t (some x) e = (refl, λ gone. cc)

module _ {R : Type 0} (id : R → ℕ) where
  -- Above every identifier of the table.
  abbrev fresh : List R → ℕ
  fresh [] = 0
  fresh (x ∷ xs) = suc (id x + fresh xs)

  pub fresh-above : (t : List R) (k : ℕ) → fresh t ≤ k → All (λ x. id x ≢ k) t
  fresh-above [] k h = tt
  fresh-above (x ∷ xs) k h = (λ e. omega arith, fresh-above xs k (omega arith))

  abbrev changed : (R → R) → List R → Option R → Result (R × List R)
  changed f t none = err Error.record_does_not_exist
  changed f t (some x) = ok (f x, t)

  abbrev placed : R → (R → R) → List R → List R → Option R → R × List R
  placed new f t t' none = (new, t ++ new ∷ [])
  placed new f t t' (some x) = (f x, t')

  pub changed-Updated :
      (k : ℕ) (f : R → R) (t : List R) (o : Option R)
      → find (λ y. id y == k) t ≡ o
      → Updated id k f t (changed f (update_where (λ y. id y == k) f t) o)
  changed-Updated k f t none e = tt
  changed-Updated k f t (some x) e =
      let (has, at) = find-some (λ y. id y == k) t x e in
      (x, has, (==_iff (id x) k).0 at, refl, refl)

  pub placed-Placed :
      (k : ℕ) (new : R) (f : R → R) (t : List R) (o : Option R)
      → Placed id k new f t o (placed new f t (update_where (λ y. id y == k) f t) o)
  placed-Placed k new f t none = (refl, refl)
  placed-Placed k new f t (some x) = (refl, refl)

  abbrev pub in_order : Delegate id
  in_order = record {
    find_first = λ n p t. ok (find p t);
    find_many = λ n p t. ok (keep p t);
    count_rows = λ n p t. ok (count p t);
    create = λ n make t. ok (make (fresh t), t ++ make (fresh t) ∷ []);
    insert = λ n same new t. inserted new t (find same t);
    delete = λ n same t. deleted (keep (λ x. not (same x)) t) (find same t);
    update = λ n k f t. changed f (update_where (λ y. id y == k) f t) (find (λ y. id y == k) t);
    upsert = λ n k new f t.
        ok (placed new f t (update_where (λ y. id y == k) f t) (find (λ y. id y == k) t));
    update_many = λ n p f t. ok (update_where p f t);
    delete_many = λ n p t. ok (keep (λ x. not (p x)) t);
    find_first_lem = λ n p t. find-FoundFirst p t (find p t) refl;
    find_many_lem = λ n p t q. refl;
    count_rows_lem = λ n p t. refl;
    create_lem = λ n make t. (fresh t, refl, refl, fresh-above t (fresh t) (omega arith));
    insert_lem = λ n same new t. inserted-Inserted same new t (find same t) refl;
    delete_lem = λ n same t. deleted-Deleted same t (find same t) refl;
    update_lem = λ n k f t. changed-Updated k f t (find (λ y. id y == k) t) refl;
    upsert_lem = λ n k new f t. placed-Placed k new f t (find (λ y. id y == k) t);
    update_many_lem = λ n p f t. refl;
    delete_many_lem = λ n p t. refl;
  }

  changed_ok :
      (f : R → R) (t : List R) (o : Option R) (e : Error) → o ≢ none → changed f t o ≢ err e
  changed_ok f t none e there h = there refl
  changed_ok f t (some x) e there h = cc

  pub in_order-Reliable : Reliable in_order
  in_order-Reliable = record {
    finds = λ n p t e h. cc;
    finds_many = λ n p t e h. cc;
    creates = λ n make t e h. cc;
    inserts = λ n same new t e free. inserted_ok new t (find same t) e free;
    updates = λ n k f t e there.
        changed_ok f (update_where (λ y. id y == k) f t) (find (λ y. id y == k) t) e there;
    deletes = λ n same t e there. deleted_ok (keep (λ x. not (same x)) t) (find same t) e there;
  }

abbrev pub memory : Client
memory = record {
  role = in_order Role.id;
  user = in_order User.id;
  user_in_tab = in_order UserInTab.id;
  social_tab = in_order SocialTab.id;
  social_network = in_order SocialNetwork.id;
  social_tab_log = in_order SocialTabLog.id;
  social_sender = in_order SocialSender.id;
  social_post = in_order SocialPost.id;
  social_message = in_order SocialMessage.id;
  message = in_order Message.id;
  setting = in_order Setting.id;
  workflow = in_order Workflow.id;
  workflow_node = in_order WorkflowNode.id;
  workflow_edge = in_order WorkflowEdge.id;
  workflow_variable = in_order WorkflowVariable.id;
  workflow_data = in_order WorkflowDataRow.id;
  user_in_hot_queue = in_order UserInHotQueue.id;
  hot_queue_message = in_order HotQueueMessage.id;
  permission = in_order Permission.id;
  role_permission = in_order RolePermission.role_id;
  token = in_order Token.id;
  social_group = in_order SocialGroup.id;
  user_in_group = in_order UserInGroup.id;
  file = in_order FileRow.id;
  notification = in_order Notification.id;
  socket_connection = in_order SocketConnection.user_id;
  social_tab_setting = in_order SocialTabSetting.id;
  message_replied = in_order MessageReplied.message_id;
  activity_log = in_order ActivityLog.id;
}
