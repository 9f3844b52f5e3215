-- ===== src/Sema/Statements.antt =====
-- internal/sema/lower.go: statements. A lowered statement says whether its end can be reached.
pub mod Branches
pub mod Loops
pub mod Scopes
pub mod Code
use wihajster.Common.{ℕ, Bool, true, false, not, ◌&&◌, ◌||◌, List, [], ◌∷◌, if◌then◌else◌}
use wihajster.Common.Bytes.{Bytes, codes}
use wihajster.Common.Maps.{bytes_eq}
use wihajster.Lexer.Token.{Token}
use wihajster.Parser.Ast.{Expression, Declaration, Statement, Statements}
use wihajster.Tac.Types.{Opcode, Operand, no_operand}
use wihajster.Tac.Operands.{immediate}
use wihajster.Tac.Builder
use wihajster.Sema.Types.{Message, no_token, void, lower_object_type}
use wihajster.Sema.Lowerer.{
  TypedValue, Lowering, ◌>>=◌, ◌>>◌, pure, fail, fail_if, lift, get, emit, instruction,
  void_instruction, push_scope, pop_scope, set_local_slot, declare_local, new_label,
}
use wihajster.Sema.Expressions.{lower_expr}

-- The initializer of a declaration, where there is one.
lower_initializer : Declaration → Bytes → Operand → Expression → Lowering (Unit {0})
lower_initializer decl typ slot Expression.nil = pure tt
lower_initializer decl typ slot init = do
  value ← lower_expr init
  fail_if (not (bytes_eq value.type_name typ)) decl.token
      (Message.initializer_mismatch decl.name typ value.type_name)
  void_instruction Opcode.store (slot ∷ value.value ∷ [])

-- `lowerLocalDeclaration`.
unfoldable pub lower_local_declaration : Declaration → Lowering (Unit {0})
unfolding lower_initializer
lower_local_declaration decl = do
  typ ← lift (lower_object_type decl.token decl.type_name)
  declare_local decl.token decl.name typ
  slot ← instruction Opcode.alloca (immediate typ ∷ [])
  set_local_slot decl.name slot.text
  lower_initializer decl typ slot decl.initializer

-- `case parser.ReturnStatement`.
unfoldable pub lower_return : Token → Expression → Lowering Bool
lower_return tok Expression.nil = do
  l ← get
  fail_if (not (bytes_eq l.return_type void)) tok Message.missing_value
  emit (Builder.add_ret no_operand)
  pure false
lower_return tok e = do
  val ← lower_expr e
  l ← get
  fail_if (bytes_eq l.return_type void) tok Message.unexpected_value
  fail_if (not (bytes_eq val.type_name l.return_type)) tok
      (Message.return_mismatch l.return_type val.type_name)
  emit (Builder.add_ret val.value)
  pure false

-- `case parser.ExpressionStatement`.
unfoldable pub lower_expression_statement : Expression → Lowering Bool
lower_expression_statement Expression.nil = pure true
lower_expression_statement e = do _ ← lower_expr e; pure true

abbrev emit_label : Bytes → Lowering (Unit {0})
emit_label name = emit (Builder.add_label name)

abbrev emit_jmp : Bytes → Lowering (Unit {0})
emit_jmp name = emit (Builder.add_jmp name)

-- `if reachable { l.fn.AddJmp(label) }`.
abbrev jump_if : Bool → Bytes → Lowering (Unit {0})
jump_if true name = emit_jmp name
jump_if false name = pure tt

abbrev label_if : Bool → Bytes → Lowering (Unit {0})
label_if true name = emit_label name
label_if false name = pure tt

-- `lowerIfStatement`; `otherwise` is `none` where the statement has no else.
lower_if_then : TypedValue → Lowering Bool → Lowering Bool
lower_if_then cond then_branch = do
  then_label ← new_label
  end_label ← new_label
  emit (Builder.add_br cond.value then_label end_label)
  emit_label then_label
  reachable ← then_branch
  jump_if reachable end_label
  emit_label end_label
  pure true

lower_if_else : TypedValue → Lowering Bool → Lowering Bool → Lowering Bool
lower_if_else cond then_branch else_branch = do
  then_label ← new_label
  end_label ← new_label
  else_label ← new_label
  emit (Builder.add_br cond.value then_label else_label)
  emit_label then_label
  then_reachable ← then_branch
  jump_if then_reachable end_label
  emit_label else_label
  else_reachable ← else_branch
  jump_if else_reachable end_label
  label_if (then_reachable || else_reachable) end_label
  pure (then_reachable || else_reachable)

unfoldable pub lower_if_statement :
    Token → Expression → Lowering Bool → Statement → Lowering Bool → Lowering Bool
unfolding lower_if_then lower_if_else
lower_if_statement tok cond then_branch else_statement else_branch = do
  c ← lower_expr cond
  fail_if (bytes_eq c.type_name void) tok Message.condition_void
  elim else_statement [
    | Statement.nil ↦ lower_if_then c then_branch
    | _ ↦ lower_if_else c then_branch else_branch
  ]

-- `lowerWhileStatement`.
unfoldable pub lower_while_statement : Token → Expression → Lowering Bool → Lowering Bool
lower_while_statement tok cond body = do
  cond_label ← new_label
  body_label ← new_label
  end_label ← new_label
  emit_jmp cond_label
  emit_label cond_label
  c ← lower_expr cond
  fail_if (bytes_eq c.type_name void) tok Message.condition_void
  emit (Builder.add_br c.value body_label end_label)
  emit_label body_label
  reachable ← body
  jump_if reachable cond_label
  emit_label end_label
  pure true

-- The condition of a `for`: a branch, or a jump where there is none.
lower_for_condition : Token → Expression → Bytes → Bytes → Lowering (Unit {0})
lower_for_condition tok Expression.nil body_label end_label = emit_jmp body_label
lower_for_condition tok cond body_label end_label = do
  c ← lower_expr cond
  fail_if (bytes_eq c.type_name void) tok Message.condition_void
  emit (Builder.add_br c.value body_label end_label)

-- `if bodyReachable && s.Post != nil`.
lower_post : Bool → Expression → Lowering (Unit {0})
lower_post false post = pure tt
lower_post true Expression.nil = pure tt
lower_post true post = do _ ← lower_expr post; pure tt

-- The part of `lowerForStatement` behind its init.
pub lower_for_loop : Token → Expression → Expression → Lowering Bool → Lowering Bool
unfolding lower_for_condition lower_post
lower_for_loop tok cond post body = do
  cond_label ← new_label
  body_label ← new_label
  post_label ← new_label
  end_label ← new_label
  emit_jmp cond_label
  emit_label cond_label
  lower_for_condition tok cond body_label end_label
  emit_label body_label
  reachable ← body
  jump_if reachable post_label
  emit_label post_label
  lower_post reachable post
  jump_if reachable cond_label
  emit_label end_label
  pure true

-- `lowerForStatement`: the scope is popped on each of its returns.
unfoldable pub lower_for_statement :
    Token → Statement → Lowering Bool → Expression → Expression → Lowering Bool → Lowering Bool
unfolding lower_for_loop
lower_for_statement tok init_statement init cond post body = do
  push_scope
  reachable ← elim init_statement [ Statement.nil ↦ pure true | _ ↦ init ]
  result ← elim reachable [ true ↦ lower_for_loop tok cond post body | false ↦ pure false ]
  pop_scope
  pure result

unfoldable mutual
  unfolding lower_local_declaration lower_return lower_expression_statement lower_if_statement
      lower_while_statement lower_for_statement

  -- `lowerStatement`.
  pub lower_statement : Statement → Lowering Bool
  lower_statement Statement.nil = fail no_token (Message.unsupported (codes "statement kind"))
  lower_statement (Statement.block tok stmts) = do
    push_scope
    reachable ← lower_block_statements stmts
    pop_scope
    pure reachable
  lower_statement (Statement.declaration tok decl) = do lower_local_declaration decl; pure true
  lower_statement (Statement.expression tok e) = lower_expression_statement e
  lower_statement (Statement.return tok e) = lower_return tok e
  lower_statement (Statement.if_else tok cond t e) =
      lower_if_statement tok cond (lower_statement t) e (lower_statement e)
  lower_statement (Statement.while tok cond body) =
      lower_while_statement tok cond (lower_statement body)
  lower_statement (Statement.for tok init cond post body) =
      lower_for_statement tok init (lower_statement init) cond post (lower_statement body)

  -- `lowerBlockStatements`: what stands behind an unreachable end is left out.
  pub lower_block_statements : Statements → Lowering Bool
  lower_block_statements Statements.done = pure true
  lower_block_statements (Statements.then_do stmt stmts) = lower_statement stmt >>= λ reachable.
      elim reachable [ true ↦ lower_block_statements stmts | false ↦ pure false ]
